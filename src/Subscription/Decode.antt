-- ===== src/Subscription/Decode.antt =====
-- backend/internal/service/subscription.go: the lines of a fetched body. The decoders of base64 are
-- arguments; a text is its bytes.
use xray2wg.Base.{
  Option, none, some, List, [], ◌∷◌, ◌++◌, Text, codes, if◌then◌else◌, nat_beq, trim_space,
  to_lower, has_prefix, split_on,
}
use xray2wg.Domain.Errors.{plain, Result, ok, err}

-- strings.ReplaceAll(s, "\r\n", "\n")
unfoldable pub replace_crlf : Text → Text
replace_crlf [] = []
replace_crlf (c ∷ []) = c ∷ []
replace_crlf (c ∷ d ∷ s) =
    let short = replace_crlf s in
    let long = replace_crlf (d ∷ s) in
    if nat_beq c b'\r' then (if nat_beq d b'\n' then b'\n' ∷ short else c ∷ long) else c ∷ long

-- splitLines
unfoldable pub split_lines : Text → List Text
unfolding replace_crlf split_on
split_lines s = split_on b'\n' (replace_crlf s)

-- extractVless
unfoldable pub extract_vless : List Text → List Text
unfolding trim_space to_lower has_prefix
extract_vless [] = []
extract_vless (l ∷ ls) =
    let ln = trim_space l in
    let rest = extract_vless ls in
    if has_prefix (to_lower ln) (codes "vless://") then ln ∷ rest else rest

abbrev pub candidate : Option Text → List Text
candidate none = []
candidate (some t) = t ∷ []

-- The first candidate with a vless line.
unfoldable pub first_lines : List Text → Result (List Text)
unfolding extract_vless split_lines
first_lines [] = err (plain (codes "no vless lines"))
first_lines (c ∷ cs) = elim (extract_vless (split_lines c)) [
  | [] ↦ first_lines cs
  | l ∷ ls ↦ ok (l ∷ ls)
]

-- decodeSubscriptionBody
unfoldable pub decode_subscription_body :
    (Text → Option Text) → (Text → Option Text) → Text → Result (List Text)
unfolding first_lines trim_space
decode_subscription_body raw_std std body =
    let text = trim_space body in
    first_lines (text ∷ candidate (raw_std text) ++ candidate (std text))
