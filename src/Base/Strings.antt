-- ===== src/Base/Strings.antt =====
-- Texts (valid UTF-8) as lists of code points, with the functions of Go's strings package that the
-- program calls. Case is folded for the ASCII letters only.
use Prim.Native.Char.{code}
use Prim.Native.String.{String}
use Prim.Native.Nat.{ℕ, zero, suc, ◌+◌, ◌/◌, ◌%◌}
use mathlib.Core.Path.{◌≡◌, refl}
use mathlib.Core.Logic.{◌↔◌, inl, inr}
use mathlib.Core.Bool.{Bool, true, false, ◌&&◌, ◌||◌}
use mathlib.Core.List.{List, [], ◌∷◌, map}
use native.Mathlib.Omega.{arith}
use xray2wg.Base.Tests.{leb, ltb, nat_beq, if◌then◌else◌, Eq, Bool-cases}

abbrev pub Text : Type 0
Text = List ℕ

-- The code points of a literal.
abbrev pub codes : String → Text
codes String.[] = []
codes (String.◌∷◌ c s) = code c ∷ codes s

unfoldable pub text_beq : Text → Text → Bool
text_beq [] [] = true
text_beq [] (d ∷ t) = false
text_beq (c ∷ s) [] = false
text_beq (c ∷ s) (d ∷ t) = nat_beq c d && text_beq s t

pub text_beq_iff : (s t : Text) → (text_beq s t ≡ true) ↔ (s ≡ t)
unfolding text_beq
text_beq_iff [] [] = ground arith
text_beq_iff [] (d ∷ t) = ground arith
text_beq_iff (c ∷ s) [] = ground arith
text_beq_iff (c ∷ s) (d ∷ t) = ground (arith, text_beq_iff s t)

instance abbrev pub text_eq : Eq Text
text_eq = record { same = text_beq; same_iff = text_beq_iff }

-- `s == ""`
abbrev pub is_empty : Text → Bool
is_empty [] = true
is_empty (c ∷ s) = false

-- The code points of Unicode's White_Space, as in unicode.IsSpace.
unfoldable pub is_space : ℕ → Bool
is_space c =
    (leb 9 c && leb c 13)
    || nat_beq c 32
    || nat_beq c 0x85
    || nat_beq c 0xA0
    || nat_beq c 0x1680
    || (leb 0x2000 c && leb c 0x200A)
    || nat_beq c 0x2028
    || nat_beq c 0x2029
    || nat_beq c 0x202F
    || nat_beq c 0x205F
    || nat_beq c 0x3000

unfoldable pub trim_left : Text → Text
trim_left [] = []
trim_left (c ∷ s) = if is_space c then trim_left s else c ∷ s

-- What is left of `c ∷ s` once `s` has been trimmed on the right.
abbrev pub trim_cons : ℕ → Text → Text
trim_cons c [] = if is_space c then [] else c ∷ []
trim_cons c (d ∷ s) = c ∷ d ∷ s

unfoldable pub trim_right : Text → Text
trim_right [] = []
trim_right (c ∷ s) = trim_cons c (trim_right s)

-- strings.TrimSpace
unfoldable pub trim_space : Text → Text
unfolding trim_left trim_right is_space
trim_space s = trim_right (trim_left s)

-- strings.ToLower
unfoldable pub to_lower : Text → Text
to_lower = map λ c. if leb b'A' c && leb c b'Z' then c + 32 else c

-- strings.HasPrefix
unfoldable pub has_prefix : Text → Text → Bool
has_prefix s [] = true
has_prefix [] (d ∷ p) = false
has_prefix (c ∷ s) (d ∷ p) = nat_beq c d && has_prefix s p

-- strings.Contains
unfoldable pub contains_text : Text → Text → Bool
unfolding has_prefix
contains_text [] p = has_prefix [] p
contains_text (c ∷ s) p = has_prefix (c ∷ s) p || contains_text s p

itoa_fuel : ℕ → ℕ → Text → Text
itoa_fuel zero n acc = acc
itoa_fuel (suc f) n acc =
    let rest = itoa_fuel f (n / 10) ((48 + n % 10) ∷ acc) in
    if ltb n 10 then (48 + n) ∷ acc else rest

-- `%d` of a natural number: a digit for each division by ten, so `n + 1` rounds are enough.
unfoldable pub itoa : ℕ → Text
unfolding itoa_fuel
itoa n = itoa_fuel (suc n) n []

abbrev pub push_head : ℕ → List Text → List Text
push_head c [] = (c ∷ []) ∷ []
push_head c (p ∷ ps) = (c ∷ p) ∷ ps

-- strings.Split with a separator of one character
unfoldable pub split_on : ℕ → Text → List Text
split_on sep [] = [] ∷ []
split_on sep (c ∷ s) =
    let rest = split_on sep s in if nat_beq c sep then [] ∷ rest else push_head c rest

trim_cons_full : (c : ℕ) (s : Text) → is_space c ≡ false → is_empty (trim_cons c s) ≡ false
trim_cons_full c [] h = ground arith
trim_cons_full c (d ∷ s) h = ground arith

-- A text that starts with a visible character is not trimmed away.
pub trim_space_full :
    (c : ℕ) (s : Text) → is_space c ≡ false → is_empty (trim_space (c ∷ s)) ≡ false
unfolding trim_space trim_left trim_right
trim_space_full c s h = rw (h) (trim_cons_full c (trim_right s) h)

trim_right-trim_cons :
    (c : ℕ) (u : Text) → trim_right u ≡ u → trim_right (trim_cons c u) ≡ trim_cons c u
unfolding trim_right
trim_right-trim_cons c [] h = ground (arith, Bool-cases (is_space c))
trim_right-trim_cons c (d ∷ u) h = rw (h) refl

trim_right-trim_right : (s : Text) → trim_right (trim_right s) ≡ trim_right s
unfolding trim_right
trim_right-trim_right [] = refl
trim_right-trim_right (c ∷ s) = trim_right-trim_cons c (trim_right s) (trim_right-trim_right s)

trim_left-trim_cons :
    (c : ℕ) (u : Text) → is_space c ≡ false → trim_left (trim_cons c u) ≡ trim_cons c u
unfolding trim_left
trim_left-trim_cons c [] h = ground arith
trim_left-trim_cons c (d ∷ u) h = ground arith

pub trim_space-trim_space : (s : Text) → trim_space (trim_space s) ≡ trim_space s
unfolding trim_space trim_left trim_right
trim_space-trim_space [] = refl
trim_space-trim_space (c ∷ s) = elim (Bool-cases (is_space c)) [
  | inl h ↦ rw (h) (trim_space-trim_space s)
  | inr h ↦ rw (h, trim_left-trim_cons c (trim_right s) h) (trim_right-trim_right (c ∷ s))
]

itoa_fuel_full : (f n c : ℕ) (acc : Text) → is_empty (itoa_fuel f n (c ∷ acc)) ≡ false
unfolding itoa_fuel
itoa_fuel_full zero n c acc = refl
itoa_fuel_full (suc f) n c acc =
    ground (arith, itoa_fuel_full f (n / 10) (48 + n % 10) (c ∷ acc), Bool-cases (ltb n 10))

-- A number has a digit.
pub itoa_full : (n : ℕ) → is_empty (itoa n) ≡ false
unfolding itoa itoa_fuel
itoa_full n = ground (arith, itoa_fuel_full n (n / 10) (48 + n % 10) [], Bool-cases (ltb n 10))

-- A text that is left after trimming was not empty.
pub trim_space_source : (s : Text) → is_empty (trim_space s) ≡ false → is_empty s ≡ false
unfolding trim_space trim_left trim_right
trim_space_source [] h = ground arith
trim_space_source (c ∷ s) h = refl
