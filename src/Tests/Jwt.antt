-- ===== src/Tests/Jwt.antt =====
-- A library of tokens that writes the claims out and reads them back, for the witnesses.
use xray2wg.Base.{
  ℕ, zero, suc, ◌*◌, ◌<◌, true, Option, none, some, [], ◌∷◌, ◌++◌, Text, length, ltb, if◌then◌else◌,
  ◌≡◌, refl, arith, ap, sym,
}
use xray2wg.Domain.Errors.{ok}
use xray2wg.Auth.{Claims, Jwt, second}
use xray2wg.Auth.Tokens.{ReadsBack}

abbrev pub put_back : ℕ → Text × Text → Text × Text
put_back c (t, r) = (c ∷ t, r)

unfoldable pub take_text : ℕ → Text → Text × Text
take_text zero r = ([], r)
take_text (suc n) [] = ([], [])
take_text (suc n) (c ∷ r) = put_back c (take_text n r)

abbrev pub size : Option Text → ℕ
size none = 0
size (some t) = suc (length t)

abbrev pub content : Option Text → Text
content none = []
content (some t) = t

abbrev pub present : Text × Text → Option Text × Text
present (t, r) = (some t, r)

unfoldable pub read_optional : ℕ → Text → Option Text × Text
unfolding take_text
read_optional zero r = (none, r)
read_optional (suc n) r = present (take_text n r)

abbrev pub number : Option ℕ → ℕ
number none = 0
number (some n) = suc n

abbrev pub read_number : ℕ → Option ℕ
read_number zero = none
read_number (suc n) = some n

abbrev pub write_claims : Claims → Text
write_claims c =
    c.exp ∷ c.iat ∷ number c.user_id ∷ size c.typ ∷ size c.refresh_jti ∷ content c.typ
    ++ (content c.refresh_jti ++ c.subject)

abbrev pub claims_of : ℕ → ℕ → ℕ → Option Text → Option Text × Text → Claims
claims_of e i u typ (jti, subject) = record {
  subject = subject;
  typ = typ;
  exp = e;
  iat = i;
  user_id = read_number u;
  refresh_jti = jti;
}

abbrev pub read_rest : ℕ → ℕ → ℕ → ℕ → Option Text × Text → Claims
read_rest e i u j (typ, r) = claims_of e i u typ (read_optional j r)

unfoldable pub read_claims : ℕ → Text → Option Claims
unfolding read_optional
read_claims now (e ∷ i ∷ u ∷ t ∷ j ∷ r) =
    if ltb now (e * second) then some (read_rest e i u j (read_optional t r)) else none
read_claims now _ = none

abbrev pub codec : Jwt
codec = record { sign = λ c. ok (write_claims c); parse = read_claims }

take_text-append : (t r : Text) → take_text (length t) (t ++ r) ≡ (t, r)
unfolding take_text
take_text-append [] r = refl
take_text-append (c ∷ t) r = ap (put_back c) (take_text-append t r)

read_optional-content :
    (o : Option Text) (r : Text) → read_optional (size o) (content o ++ r) ≡ (o, r)
unfolding read_optional
read_optional-content none r = refl
read_optional-content (some t) r = ap present (take_text-append t r)

number_back : (o : Option ℕ) → read_number (number o) ≡ o
number_back none = refl
number_back (some n) = refl

read_claims-write_claims :
    (c : Claims) (now : ℕ) → now < c.exp * second → read_claims now (write_claims c) ≡ some c
unfolding read_claims
read_claims-write_claims c now lt =
    let early : ltb now (c.exp * second) ≡ true = ground arith in
    rw
      (
        early,
        read_optional-content c.typ (content c.refresh_jti ++ c.subject),
        read_optional-content c.refresh_jti c.subject,
        number_back c.user_id,
      )
      refl

pub codec-ReadsBack : ReadsBack codec
codec-ReadsBack c token now signed lt =
    let e : write_claims c ≡ token = ground (arith, signed) in
    rw (sym e) (read_claims-write_claims c now lt)
