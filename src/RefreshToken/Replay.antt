-- ===== src/RefreshToken/Replay.antt =====
-- A refresh session is good for one rotation.
use xray2wg.Base.{
  ℕ, ◌≤◌, not, Option, none, some, List, [], ◌∷◌, Text, codes, ◌≡◌, ◌≢◌, arith, lookup, erase,
  lookup-insert, lookup-erase, lookup-keep_values, Distinct, insert-Distinct, erase-Distinct,
  text_eq, text_beq_iff, ◌==◌, if◌then◌else◌, Option-cases, inl, inr, keep_values-Distinct,
}
use xray2wg.Domain.Errors.{Result, ok, err}
use xray2wg.RefreshToken.{
  Session, Sessions, StoreError, expired, is_expired, purge_expired, new_session, create_session,
  renew, rotate, revoke,
}

-- What is left of the sessions, key by key, by the session of the old identifier.
abbrev pub left_by :
    Result Text → ℕ → Text → ℕ → Option Session → Text → Option Session → Option Session
left_by jti now old ttl none j before = before
left_by (err e) now old ttl (some s) j before = if old == j then none else before
left_by (ok new) now old ttl (some s) j before =
    if is_expired now s
    then (if old == j then none else before)
    else if new == j
    then some (new_session s.user_id now ttl)
    else if old == j
    then none
    else before

-- Rotate, seen through the lookups: a live session moves to the new identifier with its user and a
-- new term, an expired one is dropped, and no other session changes.
pub lookup-rotate :
    (jti : Result Text) (now : ℕ) (old : Text) (ttl : ℕ) (ss : Sessions) (j : Text)
    → lookup j (rotate jti now old ttl ss).1
      ≡ left_by jti now old ttl (lookup old ss) j (lookup j ss)
unfolding rotate
lookup-rotate jti now old ttl ss j = elim (Option-cases (lookup old ss)) [
  | inl missing ↦ rw (missing, rotate)
  | inr (s, found) ↦ rw (found, rotate) (by_jti jti s)
]
  where
    by_jti :
        (r : Result Text) (s : Session)
        → lookup j
            (if is_expired now s
              then ((some expired, codes "", 0), erase old ss)
              else renew r now s.user_id ttl (erase old ss)).1
          ≡ left_by r now old ttl (some s) j (lookup j ss)
    by_jti (err e) s = ground (arith, lookup-erase old j ss)
    by_jti (ok new) s = ground (
      arith,
      lookup-erase old j ss,
      lookup-insert new j (new_session s.user_id now ttl) (erase old ss),
    )

rotate_consumes :
    (jti : Result Text) (now : ℕ) (old : Text) (ttl : ℕ) (ss : Sessions)
    → jti ≢ ok old
    → lookup old (rotate jti now old ttl ss).1 ≡ none
rotate_consumes (ok new) now old ttl ss ne = ground (
  arith,
  lookup-rotate (ok new) now old ttl ss old,
  text_beq_iff old old,
  text_beq_iff new old,
  Option-cases (lookup old ss),
)
rotate_consumes (err e) now old ttl ss ne = ground (
  arith,
  lookup-rotate (err e) now old ttl ss old,
  text_beq_iff old old,
  Option-cases (lookup old ss),
)

-- A call on the store, with the time and what the random generator returns.
pub data Call : Type 0 where
  create_call : Result Text → ℕ → ℕ → ℕ → Call
  rotate_call : Result Text → ℕ → Text → ℕ → Call
  revoke_call : Text → Call
  purge_call : ℕ → Call

unfoldable pub apply : Call → Sessions → Sessions
apply (create_call jti now user ttl) ss = (create_session jti now user ttl ss).1
apply (rotate_call jti now old ttl) ss = (rotate jti now old ttl ss).1
apply (revoke_call jti) ss = revoke jti ss
apply (purge_call now) ss = purge_expired now ss

unfoldable pub run : List Call → Sessions → Sessions
run [] ss = ss
run (c ∷ cs) ss = run cs (apply c ss)

-- The random generator does not hand out `old` in this call.
abbrev pub Avoids : Text → Call → Type 0
Avoids old (create_call jti now user ttl) = jti ≢ ok old
Avoids old (rotate_call jti now o ttl) = jti ≢ ok old
Avoids old (revoke_call jti) = Unit
Avoids old (purge_call now) = Unit

abbrev pub AllAvoid : Text → List Call → Type 0
AllAvoid old [] = Unit
AllAvoid old (c ∷ cs) = Avoids old c × AllAvoid old cs

create-Distinct :
    (jti : Result Text) (now user ttl : ℕ) (ss : Sessions)
    → Distinct ss
    → Distinct (create_session jti now user ttl ss).1
unfolding create_session
create-Distinct (ok jti) now user ttl ss d = insert-Distinct jti (new_session user now ttl) ss d
create-Distinct (err e) now user ttl ss d = d

rotate-Distinct :
    (jti : Result Text) (now : ℕ) (old : Text) (ttl : ℕ) (ss : Sessions)
    → Distinct ss
    → Distinct (rotate jti now old ttl ss).1
unfolding rotate
rotate-Distinct jti now old ttl ss d = elim (Option-cases (lookup old ss)) [
  | inl missing ↦ rw (missing, rotate) d
  | inr (s, found) ↦ rw (found, rotate) (by_jti jti s)
]
  where
    by_jti :
        (r : Result Text) (s : Session)
        → Distinct
            (if is_expired now s
              then ((some expired, codes "", 0), erase old ss)
              else renew r now s.user_id ttl (erase old ss)).1
    by_jti (err e) s = ground (arith, erase-Distinct old ss d)
    by_jti (ok new) s = ground (
      arith,
      erase-Distinct old ss d,
      insert-Distinct new (new_session s.user_id now ttl) (erase old ss),
    )

pub apply-Distinct : (c : Call) (ss : Sessions) → Distinct ss → Distinct (apply c ss)
unfolding apply revoke purge_expired
apply-Distinct (create_call jti now user ttl) ss d = create-Distinct jti now user ttl ss d
apply-Distinct (rotate_call jti now old ttl) ss d = rotate-Distinct jti now old ttl ss d
apply-Distinct (revoke_call jti) ss d = erase-Distinct jti ss d
apply-Distinct (purge_call now) ss d = keep_values-Distinct _ ss d

-- No call brings back a session that is gone.
apply_gone :
    (old : Text) (c : Call) (ss : Sessions)
    → Distinct ss
    → Avoids old c
    → lookup old ss ≡ none
    → lookup old (apply c ss) ≡ none
unfolding apply revoke purge_expired create_session
apply_gone old (create_call (err e) now user ttl) ss d a gone = gone
apply_gone old (create_call (ok jti) now user ttl) ss d a gone =
    ground (arith, lookup-insert jti old (new_session user now ttl) ss, text_beq_iff jti old)
apply_gone old (rotate_call (err e) now o ttl) ss d a gone =
    ground (arith, lookup-rotate (err e) now o ttl ss old, Option-cases (lookup o ss))
apply_gone old (rotate_call (ok jti) now o ttl) ss d a gone = ground (
  arith,
  lookup-rotate (ok jti) now o ttl ss old,
  text_beq_iff jti old,
  Option-cases (lookup o ss),
)
apply_gone old (revoke_call jti) ss d a gone = ground (arith, lookup-erase jti old ss)
apply_gone old (purge_call now) ss d a gone = rw (lookup-keep_values _ old ss d, gone)

run_gone :
    (old : Text) (cs : List Call) (ss : Sessions)
    → Distinct ss
    → AllAvoid old cs
    → lookup old ss ≡ none
    → lookup old (run cs ss) ≡ none
unfolding run
run_gone old [] ss d a gone = gone
run_gone old (c ∷ cs) ss d a gone =
    run_gone old cs (apply c ss) (apply-Distinct c ss d) a.1 (apply_gone old c ss d a.0 gone)

-- Once a session has been presented for rotation, with whatever outcome, every later rotation of it
-- fails with ErrSessionNotFound and leaves the store alone, after any further calls on the store,
-- provided that the store had one entry for a key and that the random generator never hands out the
-- old identifier again.
pub rotate_replayed :
    (jti : Result Text) (now : ℕ) (old : Text) (ttl : ℕ) (ss : Sessions) (cs : List Call)
    (jti' : Result Text) (now' ttl' : ℕ)
    → Distinct ss
    → jti ≢ ok old
    → AllAvoid old cs
    → let ss' = run cs (rotate jti now old ttl ss).1 in
      rotate jti' now' old ttl' ss' ≡ ((some StoreError.not_found, codes "", 0), ss')
unfolding rotate
rotate_replayed jti now old ttl ss cs jti' now' ttl' d ne a = rw (
  run_gone old cs _ (rotate-Distinct jti now old ttl ss d) a
      (rotate_consumes jti now old ttl ss ne),
  rotate,
)

-- What a rotation hands out, and whether it does.
abbrev pub granted : (Option StoreError × Text × ℕ) × Sessions → Option (Text × ℕ)
granted ((none, jti, user), ss) = some (jti, user)
granted ((some e, jti, user), ss) = none

abbrev grant_by : Result Text → ℕ → Option Session → Option (Text × ℕ)
grant_by jti now none = none
grant_by (err e) now (some s) = none
grant_by (ok new) now (some s) = if is_expired now s then none else some (new, s.user_id)

granted-rotate :
    (jti : Result Text) (now : ℕ) (old : Text) (ttl : ℕ) (ss : Sessions)
    → granted (rotate jti now old ttl ss) ≡ grant_by jti now (lookup old ss)
unfolding rotate renew
granted-rotate (ok new) now old ttl ss = ground (arith, Option-cases (lookup old ss))
granted-rotate (err e) now old ttl ss = ground (arith, Option-cases (lookup old ss))

-- In a store with one entry for a key, the background cleanup at a time no later than a rotation
-- makes no difference to what the rotation grants.
pub rotate-purge :
    (jti : Result Text) (before now : ℕ) (old : Text) (ttl : ℕ) (ss : Sessions)
    → Distinct ss
    → before ≤ now
    → granted (rotate jti now old ttl (purge_expired before ss))
      ≡ granted (rotate jti now old ttl ss)
unfolding purge_expired
rotate-purge (err e) before now old ttl ss d h = ground (
  arith,
  granted-rotate (err e) now old ttl ss,
  granted-rotate (err e) now old ttl (purge_expired before ss),
  lookup-keep_values (λ s. not (is_expired before s)) old ss d,
  Option-cases (lookup old ss),
)
rotate-purge (ok new) before now old ttl ss d h = ground (
  arith,
  granted-rotate (ok new) now old ttl ss,
  granted-rotate (ok new) now old ttl (purge_expired before ss),
  lookup-keep_values (λ s. not (is_expired before s)) old ss d,
  Option-cases (lookup old ss),
)
