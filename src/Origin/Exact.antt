-- ===== src/Origin/Exact.antt =====
-- An origin is allowed exactly when the list names it.
use xray2wg.Base.{
  Bool, true, false, List, [], ◌∷◌, Text, text_eq, is_empty, trim_space, split_on, contains,
  contains-add, add, ◌==◌, if◌then◌else◌, ◌≡◌, arith, Bool-cases, inl, inr, any, ◌||◌, ◌≢◌,
}
use xray2wg.Domain.Errors.{ok, err, Result-cases}
use xray2wg.Origin.{Parse, normalize_origin, allow_parts, new_config, allow_origin}

-- A part of the list is this origin, once both are normalised; an empty part is none.
abbrev pub is_part : Parse → Text → Text → Bool
is_part parse norm p =
    if is_empty (trim_space p)
    then false
    else elim (normalize_origin parse (trim_space p)) [ err e ↦ false | ok n ↦ n == norm ]

allow_parts-ok :
    (parse : Parse) (ps allowed result : List Text) (norm : Text)
    → allow_parts parse ps allowed ≡ ok result
    → contains norm result ≡ (any (is_part parse norm) ps || contains norm allowed)
unfolding allow_parts
allow_parts-ok parse [] allowed result norm h = ground arith
allow_parts-ok parse (p ∷ ps) allowed result norm h = elim (Bool-cases (is_empty (trim_space p))) [
  | inl blank ↦ ground (arith, allow_parts-ok parse ps allowed result norm)
  | inr full ↦ elim (Result-cases (normalize_origin parse (trim_space p))) [
    | inl (e, failed) ↦ ground arith
    | inr (n, good) ↦ ground (
      arith,
      allow_parts-ok parse ps (add n allowed) result norm (ground arith),
      contains-add n norm allowed,
    )
  ]
]

new_config-ok :
    (parse : Parse) (list : Text) (allowed : List Text)
    → new_config parse list ≡ ok allowed
    → allow_parts parse (split_on b',' list) [] ≡ ok allowed
unfolding new_config
new_config-ok parse list allowed h =
    elim (Result-cases (allow_parts parse (split_on b',' list) [])) [
      | inl (e, failed) ↦ ground arith
      | inr ([], empty) ↦ ground arith
      | inr (o ∷ os, full) ↦ ground arith
    ]

normalize_blank :
    (parse : Parse) (s norm : Text)
    → is_empty (trim_space s) ≡ true
    → normalize_origin parse s ≢ ok norm
unfolding normalize_origin
normalize_blank parse s norm h = ground arith

abbrev pub is_listed : Parse → Text → Text → Bool
is_listed parse list origin = elim (normalize_origin parse origin) [
  | err e ↦ false
  | ok norm ↦ any (is_part parse norm) (split_on b',' list)
]

-- With the set of a list that NewConfig accepts, an origin is allowed exactly when it is well formed
-- and some part of the list, trimmed and normalised, is the same normalised origin.
pub allow_origin-new_config :
    (parse : Parse) (list : Text) (allowed : List Text) (origin : Text)
    → new_config parse list ≡ ok allowed
    → allow_origin parse allowed origin ≡ is_listed parse list origin
unfolding allow_origin contains
allow_origin-new_config parse list allowed origin h =
    elim (Result-cases (normalize_origin parse origin)) [
      | inl (e, failed) ↦ ground arith
      | inr (norm, good) ↦ ground (
        arith,
        normalize_blank parse origin norm,
        allow_parts-ok parse (split_on b',' list) [] allowed norm
            (new_config-ok parse list allowed h),
      )
    ]
