-- ===== src/RefreshToken/Spared.antt =====
-- A session that no call on the store is about stays.
use xray2wg.Base.{
  ◌≤◌, not, some, List, [], ◌∷◌, Text, ◌≡◌, ◌≢◌, arith, lookup, lookup-insert, lookup-erase,
  lookup-keep_values, Distinct, text_eq, text_beq_iff, Option-cases,
}
use xray2wg.Domain.Errors.{ok, err}
use xray2wg.RefreshToken.{
  Session, Sessions, is_expired, purge_expired, new_session, create_session, revoke,
}
use xray2wg.RefreshToken.Replay.{
  Call, create_call, rotate_call, revoke_call, purge_call, apply, run, apply-Distinct,
  lookup-rotate,
}

-- The call does not name the session j, does not draw its identifier, and comes before its end.
abbrev pub Spares : Text → Session → Call → Type 0
Spares j s (create_call jti now user ttl) = jti ≢ ok j
Spares j s (rotate_call jti now old ttl) = (jti ≢ ok j) × (old ≢ j)
Spares j s (revoke_call jti) = jti ≢ j
Spares j s (purge_call now) = now ≤ s.expires_at

abbrev pub AllSpare : Text → Session → List Call → Type 0
AllSpare j s [] = Unit
AllSpare j s (c ∷ cs) = Spares j s c × AllSpare j s cs

apply_spared :
    (j : Text) (s : Session) (c : Call) (ss : Sessions)
    → Distinct ss
    → Spares j s c
    → lookup j ss ≡ some s
    → lookup j (apply c ss) ≡ some s
unfolding apply revoke purge_expired create_session
apply_spared j s (create_call (err e) now user ttl) ss d a found = found
apply_spared j s (create_call (ok jti) now user ttl) ss d a found =
    ground (arith, lookup-insert jti j (new_session user now ttl) ss, text_beq_iff jti j)
apply_spared j s (rotate_call (err e) now o ttl) ss d a found =
    ground
      (arith, lookup-rotate (err e) now o ttl ss j, text_beq_iff o j, Option-cases (lookup o ss))
apply_spared j s (rotate_call (ok jti) now o ttl) ss d a found = ground (
  arith,
  lookup-rotate (ok jti) now o ttl ss j,
  text_beq_iff jti j,
  text_beq_iff o j,
  Option-cases (lookup o ss),
)
apply_spared j s (revoke_call jti) ss d a found =
    ground (arith, lookup-erase jti j ss, text_beq_iff jti j)
apply_spared j s (purge_call now) ss d a found =
    ground (arith, lookup-keep_values (λ u. not (is_expired now u)) j ss d)

pub run_spared :
    (j : Text) (s : Session) (cs : List Call) (ss : Sessions)
    → Distinct ss
    → AllSpare j s cs
    → lookup j ss ≡ some s
    → lookup j (run cs ss) ≡ some s
unfolding run
run_spared j s [] ss d a found = found
run_spared j s (c ∷ cs) ss d a found =
    run_spared j s cs (apply c ss) (apply-Distinct c ss d) a.1 (apply_spared j s c ss d a.0 found)
