-- ===== src/RefreshToken/Outcome.antt =====
-- What a rotation that succeeds did, and when one succeeds.
use xray2wg.Base.{
  ℕ, false, none, some, Text, ◌≡◌, refl, arith, lookup, insert, erase, ◌≢◌, text_eq, Option-cases,
  inl, inr,
}
use xray2wg.Domain.Errors.{Result, ok, err}
use xray2wg.RefreshToken.{Session, Sessions, is_expired, new_session, create_session, renew, rotate}

-- What a rotation of the session s leaves.
abbrev pub RotatedTo : ℕ → Text → ℕ → Sessions → Text → ℕ → Sessions → Session → Type 0
RotatedTo now old ttl ss new user ss' s =
    (lookup old ss ≡ some s)
    × (is_expired now s ≡ false)
    × (user ≡ s.user_id)
    × (ss' ≡ insert new (new_session user now ttl) (erase old ss))

rotate-found :
    (jti : Result Text) (now : ℕ) (old : Text) (ttl : ℕ) (ss ss' : Sessions) (new : Text) (user : ℕ)
    (s : Session)
    → lookup old ss ≡ some s
    → rotate jti now old ttl ss ≡ ((none, new, user), ss')
    → RotatedTo now old ttl ss new user ss' s
unfolding rotate renew
rotate-found (ok n) now old ttl ss ss' new user s found h = ground arith
rotate-found (err e) now old ttl ss ss' new user s found h = ground arith

rotate-missing :
    (jti : Result Text) (now : ℕ) (old : Text) (ttl : ℕ) (ss ss' : Sessions) (new : Text) (user : ℕ)
    → lookup old ss ≡ none
    → rotate jti now old ttl ss ≢ ((none, new, user), ss')
unfolding rotate
rotate-missing jti now old ttl ss ss' new user missing h = ground arith

pub rotate-ok :
    (jti : Result Text) (now : ℕ) (old : Text) (ttl : ℕ) (ss ss' : Sessions) (new : Text) (user : ℕ)
    → rotate jti now old ttl ss ≡ ((none, new, user), ss')
    → (s : Session) × RotatedTo now old ttl ss new user ss' s
rotate-ok jti now old ttl ss ss' new user h = elim (Option-cases (lookup old ss)) [
  | inl missing ↦ elim (rotate-missing jti now old ttl ss ss' new user missing h) [ ]
  | inr (s, found) ↦ (s, rotate-found jti now old ttl ss ss' new user s found h)
]

pub rotate-live :
    (new : Text) (now : ℕ) (old : Text) (ttl : ℕ) (ss : Sessions) (s : Session)
    → lookup old ss ≡ some s
    → is_expired now s ≡ false
    → rotate (ok new) now old ttl ss
      ≡ ((none, new, s.user_id), insert new (new_session s.user_id now ttl) (erase old ss))
unfolding rotate renew
rotate-live new now old ttl ss s found live = rw (found, rotate, live, renew) refl

pub create_session-ok :
    (jti : Text) (now user ttl : ℕ) (ss : Sessions)
    → create_session (ok jti) now user ttl ss ≡ (ok jti, insert jti (new_session user now ttl) ss)
unfolding create_session
create_session-ok jti now user ttl ss = refl
