-- ===== src/Vless/Security.antt =====
-- backend/internal/vless/security: the registry of securities and what each does with its parameters.
pub mod RoundTrip
use xray2wg.Base.{
  ℕ, Bool, true, false, Option, none, some, List, [], ◌∷◌, ◌++◌, Text, codes, text_eq, ◌==◌,
  if◌then◌else◌, is_empty, trim_space, to_lower, contains, lookup, split_on, insert,
}
use xray2wg.Domain.Errors.{GoError, plain, Result, ok, err}
use xray2wg.Vless.Query.{
  Query, get, put, Json, bool, text, texts, Fields, end, field, default_string,
}

pub data Security : Type 0 where
  clear tls reality : Security

pub record TlsSpec : Type 0 where
  pub server_name : Text
  pub alpn : List Text
  pub fingerprint : Text
  pub allow_insecure : Bool

pub record RealitySpec : Type 0 where
  pub server_name : Text
  pub fingerprint : Text
  pub public_key : Text
  pub short_id : Text
  pub spider_x : Text

-- security.Spec
pub data Spec : Type 0 where
  none_spec : Spec
  tls_spec : TlsSpec → Spec
  reality_spec : RealitySpec → Spec

abbrev pub security_of : Spec → Security
security_of none_spec = clear
security_of (tls_spec s) = tls
security_of (reality_spec s) = reality

-- Name
unfoldable pub name : Security → Text
name clear = codes "none"
name tls = codes "tls"
name reality = codes "reality"

-- Default.byName; no security has an alias.
unfoldable pub by_name : List (Text × Security)
by_name = (codes "none", clear) ∷ (codes "tls", tls) ∷ (codes "reality", reality) ∷ []

-- Resolve; the names that an error lists are an argument.
unfoldable pub resolve : (Text → Text) → Text → Text → Result Security
unfolding lookup by_name trim_space to_lower
resolve quote names n = elim (lookup (to_lower (trim_space n)) by_name) [
  | some s ↦ ok s
  | none ↦ err (
      plain (
        codes "vless/security: unknown " ++ quote n ++ codes " (supported: " ++ names ++ codes ")"))
]

-- The parts that are not empty once trimmed.
unfoldable pub trimmed_parts : List Text → List Text
unfolding trim_space
trimmed_parts [] = []
trimmed_parts (p ∷ ps) =
    let rest = trimmed_parts ps in if is_empty (trim_space p) then rest else trim_space p ∷ rest

-- splitALPN
unfoldable pub split_alpn : Text → List Text
unfolding trim_space split_on trimmed_parts
split_alpn raw = if is_empty (trim_space raw) then [] else trimmed_parts (split_on b',' raw)

abbrev pub truths : List Text
truths = codes "1" ∷ codes "true" ∷ codes "yes" ∷ []

-- ParseURI of each security
abbrev pub parse_tls : Query → TlsSpec
parse_tls q = record {
  server_name = trim_space (get (codes "sni") q);
  alpn = split_alpn (get (codes "alpn") q);
  fingerprint = trim_space (get (codes "fp") q);
  allow_insecure = contains (to_lower (trim_space (get (codes "allowInsecure") q))) truths;
}

abbrev pub parse_reality : Query → RealitySpec
parse_reality q = record {
  server_name = trim_space (get (codes "sni") q);
  fingerprint = trim_space (get (codes "fp") q);
  public_key = trim_space (get (codes "pbk") q);
  short_id = trim_space (get (codes "sid") q);
  spider_x = trim_space (get (codes "spx") q);
}

unfoldable pub parse : Security → Query → Spec
unfolding get trim_space to_lower contains split_alpn
parse clear q = none_spec
parse tls q = tls_spec (parse_tls q)
parse reality q = reality_spec (parse_reality q)

-- Validate
unfoldable pub validate : Spec → Option GoError
validate (reality_spec s) =
    if is_empty s.public_key
    then some (plain (codes "reality: missing required pbk (publicKey)"))
    else none
validate s = none

-- strings.Join(ps, ",")
unfoldable pub join_commas : List Text → Text
join_commas [] = []
join_commas (p ∷ []) = p
join_commas (p ∷ r ∷ ps) = p ++ (b',' ∷ join_commas (r ∷ ps))

abbrev pub put_alpn : List Text → Query → Query
put_alpn [] q = q
put_alpn (p ∷ ps) q = insert (codes "alpn") (join_commas (p ∷ ps)) q

-- ShareLink of each security
abbrev pub share_tls : TlsSpec → Query
share_tls s =
    put (codes "allowInsecure") (if s.allow_insecure then codes "1" else [])
      (put (codes "fp") s.fingerprint (put_alpn s.alpn (put (codes "sni") s.server_name [])))

abbrev pub share_reality : RealitySpec → Query
share_reality s = put (codes "spx") s.spider_x (
    put (codes "sid") s.short_id (
      put (codes "pbk") s.public_key
        (put (codes "fp") s.fingerprint (put (codes "sni") s.server_name []))))

unfoldable pub share_link : Spec → Query
unfolding put join_commas insert
share_link none_spec = []
share_link (tls_spec s) = share_tls s
share_link (reality_spec s) = share_reality s

-- EmitSettings of each security
pub emit_tls : TlsSpec → Option Fields
emit_tls s = some (
    field (codes "allowInsecure") (bool s.allow_insecure)
      (field (codes "serverName") (text s.server_name) (field (codes "alpn") (texts s.alpn) end)))

pub emit_reality : RealitySpec → Option Fields
emit_reality s = some (
    field (codes "fingerprint") (text (default_string s.fingerprint (codes "chrome"))) (
      field (codes "serverName") (text s.server_name) (
        field (codes "publicKey") (text s.public_key) (
          field (codes "shortId") (text s.short_id)
            (field (codes "spiderX") (text (default_string s.spider_x (codes "/"))) end)))))

-- EmitSettings: nothing where there is no security.
pub emit_settings : Spec → Option Fields
emit_settings none_spec = none
emit_settings (tls_spec s) = emit_tls s
emit_settings (reality_spec s) = emit_reality s
