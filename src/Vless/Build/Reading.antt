-- ===== src/Vless/Build/Reading.antt =====
-- backend/internal/vless: names that are resolved again, inputs that were validated, and values with
-- their defaults.
use xray2wg.Base.{
  false, none, [], ◌∷◌, Text, codes, text_eq, ◌==◌, if◌then◌else◌, is_empty, lookup, trim_space,
  trim_left, trim_right, is_space, to_lower, ◌≡◌, refl, arith, text_beq, Bool-cases, Option-cases,
  inl, inr, sym, text_beq_iff, trim_space-trim_space,
}
use xray2wg.Domain.Errors.{ok, Result-cases}
use xray2wg.Vless.Query.{default_string}
use xray2wg.Vless.Transport as Tr
use xray2wg.Vless.Security as Sec
use xray2wg.Vless.Build.{Library, BuildInput, trimmed_or, input_transport, input_security}

pub resolve-name_transport :
    (lib : Tr.Library) (t : Tr.Transport)
    → Tr.resolve lib (default_string (Tr.name t) (codes "tcp")) ≡ ok t
unfolding Tr.resolve Tr.name Tr.by_name lookup trim_space trim_left trim_right is_space to_lower
    text_beq
resolve-name_transport lib Tr.tcp = refl
resolve-name_transport lib Tr.ws = refl
resolve-name_transport lib Tr.grpc = refl
resolve-name_transport lib Tr.kcp = refl
resolve-name_transport lib Tr.xhttp = refl
resolve-name_transport lib Tr.httpupgrade = refl

pub resolve-name_security :
    (quote : Text → Text) (names : Text) (s : Sec.Security)
    → Sec.resolve quote names (default_string (Sec.name s) (codes "none")) ≡ ok s
unfolding Sec.resolve Sec.name Sec.by_name lookup trim_space trim_left trim_right is_space to_lower
    text_beq
resolve-name_security quote names Sec.clear = refl
resolve-name_security quote names Sec.tls = refl
resolve-name_security quote names Sec.reality = refl

pub input_transport-validate :
    (lib : Library) (i : BuildInput) (t : Tr.Spec)
    → input_transport lib i ≡ ok t
    → Tr.validate lib.transports t ≡ none
unfolding input_transport
input_transport-validate lib i t h = ground (
  arith,
  Result-cases (Tr.resolve lib.transports (trimmed_or i.network (codes "tcp"))),
  Option-cases (Tr.validate lib.transports t),
)

pub input_security-validate :
    (lib : Library) (i : BuildInput) (s : Sec.Spec)
    → input_security lib i ≡ ok s
    → Sec.validate s ≡ none
unfolding input_security
input_security-validate lib i s h = ground (
  arith,
  Result-cases
      (Sec.resolve lib.transports.quote lib.security_names (trimmed_or i.security (codes "none"))),
  Option-cases (Sec.validate s),
)

pub trim_space-default_string :
    (v d : Text)
    → trim_space v ≡ v
    → trim_space d ≡ d
    → trim_space (default_string v d) ≡ default_string v d
trim_space-default_string [] d h e = e
trim_space-default_string (c ∷ v) d h e = h

pub default_string_full : (v d : Text) → is_empty d ≡ false → is_empty (default_string v d) ≡ false
default_string_full [] d h = h
default_string_full (c ∷ v) d h = refl

pub default_string_kept : (v d : Text) → is_empty v ≡ false → default_string v d ≡ v
default_string_kept [] d h = ground arith
default_string_kept (c ∷ v) d h = refl

-- The encryption as a link shows it.
abbrev pub shown_encryption : Text → Text
shown_encryption enc = if enc == codes "none" then [] else enc

pub encryption_read :
    (x : Text)
    → default_string (trim_space (shown_encryption (trimmed_or x (codes "none")))) (codes "none")
      ≡ trimmed_or x (codes "none")
unfolding trim_space trim_left trim_right is_space
encryption_read x =
    let enc = trimmed_or x (codes "none") in
    let trimmed =
      trim_space-default_string (trim_space x) (codes "none") (trim_space-trim_space x) refl in
    elim (Bool-cases (enc == codes "none")) [
      | inl z ↦ rw (z) (sym ((text_beq_iff enc (codes "none")).0 z))
      | inr z ↦
          rw (z, trimmed)
            (default_string_kept enc (codes "none")
              (default_string_full (trim_space x) (codes "none") refl))
    ]
