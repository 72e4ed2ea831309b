-- ===== src/RefreshToken.antt =====
-- backend/internal/service/refreshtoken/store.go: the refresh sessions held in memory. The clock and
-- the random identifiers are arguments; each function is one critical section of the mutex.
pub mod Replay
pub mod Outcome
pub mod Spared
use xray2wg.Base.{
  ℕ, ◌+◌, Bool, not, Option, none, some, List, Text, codes, ltb, lookup, insert, erase, keep_values,
  text_eq, if◌then◌else◌,
}
use xray2wg.Domain.Errors.{GoError, plain, Result, ok, err}

pub record Session : Type 0 where
  pub user_id : ℕ
  pub created_at : ℕ
  pub expires_at : ℕ

abbrev pub Sessions : Type 0
Sessions = List (Text × Session)

pub data StoreError : Type 0 where
  not_found expired : StoreError
  random : GoError → StoreError

-- `now.After(expires_at)`
abbrev pub is_expired : ℕ → Session → Bool
is_expired now s = ltb s.expires_at now

-- purgeExpired
pub purge_expired : ℕ → Sessions → Sessions
purge_expired now ss = keep_values (λ s. not (is_expired now s)) ss

abbrev pub new_session : ℕ → ℕ → ℕ → Session
new_session user now ttl = record { user_id = user; created_at = now; expires_at = now + ttl }

-- The first argument is what generateJTI returns.
unfoldable pub create_session : Result Text → ℕ → ℕ → ℕ → Sessions → Result Text × Sessions
create_session (err e) now user ttl ss = (err e, ss)
create_session (ok jti) now user ttl ss = (ok jti, insert jti (new_session user now ttl) ss)

unfoldable pub renew :
    Result Text → ℕ → ℕ → ℕ → Sessions → (Option StoreError × Text × ℕ) × Sessions
renew (err e) now user ttl ss = ((some (random e), codes "", 0), ss)
renew (ok jti) now user ttl ss = ((none, jti, user), insert jti (new_session user now ttl) ss)

-- The error, the new identifier and the user, and the sessions that are left.
unfoldable pub rotate :
    Result Text → ℕ → Text → ℕ → Sessions → (Option StoreError × Text × ℕ) × Sessions
unfolding renew
rotate jti now old ttl ss = elim (lookup old ss) [
  | none ↦ ((some StoreError.not_found, codes "", 0), ss)
  | some s ↦
      if is_expired now s
      then ((some expired, codes "", 0), erase old ss)
      else renew jti now s.user_id ttl (erase old ss)
]

pub revoke : Text → Sessions → Sessions
revoke jti ss = erase jti ss
