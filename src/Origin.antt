-- ===== src/Origin.antt =====
-- backend/internal/security/origin/origin.go: the allowed browser origins. url.Parse is net/url's: it
-- gives the scheme and the host, or an error.
pub mod Exact
use xray2wg.Base.{
  Bool, true, false, Option, none, some, List, [], ◌∷◌, ◌++◌, Text, codes, text_eq, is_empty,
  trim_space, to_lower, split_on, contains, add, ◌||◌, if◌then◌else◌,
}
use xray2wg.Domain.Errors.{GoError, plain, wrap, Result, ok, err}

abbrev pub Parse : Type 0
Parse = Text → Result (Text × Text)

-- normalizeOrigin
unfoldable pub normalize_origin : Parse → Text → Result Text
normalize_origin parse s =
    let t = trim_space s in
    if is_empty t then err (plain (codes "empty origin")) else elim (parse t) [
      | err e ↦ err e
      | ok u ↦
          if is_empty u.0 || is_empty u.1
          then err (plain (codes "origin must include scheme and host"))
          else ok (to_lower u.0 ++ codes "://" ++ to_lower u.1)
    ]

-- The loop over the parts of the list, with the set so far.
unfoldable pub allow_parts : Parse → List Text → List Text → Result (List Text)
allow_parts parse [] allowed = ok allowed
allow_parts parse (p ∷ ps) allowed =
    let part = trim_space p in
    if is_empty part then allow_parts parse ps allowed else elim (normalize_origin parse part) [
      | err e ↦ err (wrap (codes "invalid allowed origin " ++ part) e)
      | ok norm ↦ allow_parts parse ps (add norm allowed)
    ]

-- NewConfig: the set of allowed origins.
unfoldable pub new_config : Parse → Text → Result (List Text)
new_config parse list = elim (allow_parts parse (split_on b',' list) []) [
  | err e ↦ err e
  | ok allowed ↦ elim allowed [
    | [] ↦
        err
          (plain (codes "CORS_ALLOWED_ORIGINS is required and must list at least one valid origin"))
    | o ∷ os ↦ ok (o ∷ os)
  ]
]

-- AllowOrigin
pub allow_origin : Parse → List Text → Text → Bool
allow_origin parse allowed origin =
    if is_empty (trim_space origin)
    then false
    else elim (normalize_origin parse origin) [ err e ↦ false | ok norm ↦ contains norm allowed ]
