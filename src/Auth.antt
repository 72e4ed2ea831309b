-- ===== src/Auth.antt =====
-- backend/internal/service/auth.go: access and refresh tokens over the session store. Signing and
-- parsing a JWT are the library's: they are the two fields of `Jwt`. Times count nanoseconds. The
-- code reads the clock once for the store and once for the claims: two arguments, `now` and `at`.
-- The user id is an integer below 2^53, which the code's float64 holds exactly.
pub mod Tokens
use xray2wg.Base.{
  ℕ, ◌+◌, ◌*◌, ◌/◌, Option, none, some, Text, codes, text_eq, ◌==◌, is_empty, if◌then◌else◌, Bool,
  true, false,
}
use xray2wg.Domain.Errors.{GoError, sentinel, plain, Sentinel, Result, ok, err}
use xray2wg.RefreshToken.{Sessions, StoreError, expired, random, create_session, rotate, revoke}

abbrev pub second : ℕ
second = 1000000000

abbrev pub access_ttl : ℕ
access_ttl = 900 * second

abbrev pub refresh_ttl : ℕ
refresh_ttl = 604800 * second

abbrev pub appliance_user : ℕ
appliance_user = 1

-- The entries of jwt.MapClaims that the program sets or reads, an absent one (or one of another
-- type) as none.
pub record Claims : Type 0 where
  pub subject : Text
  pub typ : Option Text
  pub exp : ℕ
  pub iat : ℕ
  pub user_id : Option ℕ
  pub refresh_jti : Option Text

pub record Jwt : Type 0 where
  pub sign : Claims → Result Text
  pub parse : ℕ → Text → Option Claims

abbrev pub access_claims : ℕ → ℕ → Claims
access_claims at user = record {
  subject = codes "xray2wg";
  typ = some (codes "access");
  exp = (at + access_ttl) / second;
  iat = at / second;
  user_id = some user;
  refresh_jti = none;
}

abbrev pub refresh_claims : ℕ → Text → Claims
refresh_claims at jti = record {
  subject = codes "xray2wg";
  typ = some (codes "refresh");
  exp = (at + refresh_ttl) / second;
  iat = at / second;
  user_id = none;
  refresh_jti = some jti;
}

-- What a caller gets: the two tokens or the error.
abbrev pub Pair : Type 0
Pair = Result (Text × Text)

-- signTokenPair
unfoldable pub sign_token_pair : Jwt → ℕ → ℕ → Text → Pair
sign_token_pair jwt at user jti = elim (jwt.sign (access_claims at user)) [
  | err e ↦ err e
  | ok access ↦ elim (jwt.sign (refresh_claims at jti)) [
    | err e ↦ err e
    | ok refresh ↦ ok (access, refresh)
  ]
]

-- The tail of the two callers: a pair that cannot be signed takes its session back.
unfoldable pub or_revoke : Text → Pair → Sessions → Pair × Sessions
or_revoke jti (ok p) ss = (ok p, ss)
or_revoke jti (err e) ss = (err e, revoke jti ss)

-- issuePairForUser; the store is always configured.
unfoldable pub issue_pair_for_user : Jwt → ℕ → ℕ → Result Text → ℕ → Sessions → Pair × Sessions
issue_pair_for_user jwt now at drawn user ss =
    let (jti, ss') = create_session drawn now user refresh_ttl ss in
    elim jti [ err e ↦ (err e, ss') | ok j ↦ or_revoke j (sign_token_pair jwt at user j) ss' ]

unfoldable pub issue_tokens : Jwt → ℕ → ℕ → Result Text → Sessions → Pair × Sessions
issue_tokens jwt now at drawn ss = issue_pair_for_user jwt now at drawn appliance_user ss

abbrev pub unauthorized : Pair
unauthorized = err (sentinel Sentinel.unauthorized)

-- The error of Rotate as the service returns it.
pub store_error : StoreError → GoError
store_error StoreError.not_found = sentinel Sentinel.unauthorized
store_error expired = sentinel Sentinel.unauthorized
store_error (random e) = e

-- The claims of a token that may be used to refresh: `typ` is "refresh", `refresh_jti` is there.
unfoldable pub named_session : Claims → Option Text
named_session c = elim c.typ [
  | none ↦ none
  | some t ↦
      if t == codes "refresh"
      then elim c.refresh_jti [ none ↦ none | some j ↦ if is_empty j then none else some j ]
      else none
]

-- What follows the call of Rotate.
unfoldable pub sign_rotated : Jwt → ℕ → (Option StoreError × Text × ℕ) × Sessions → Pair × Sessions
sign_rotated jwt at ((some e, new, user), ss) = (err (store_error e), ss)
sign_rotated jwt at ((none, new, user), ss) = or_revoke new (sign_token_pair jwt at user new) ss

-- RotateRefreshToken
unfoldable pub rotate_refresh_token : Jwt → ℕ → ℕ → Result Text → Text → Sessions → Pair × Sessions
rotate_refresh_token jwt now at drawn token ss = elim (jwt.parse now token) [
  | none ↦ (unauthorized, ss)
  | some c ↦ elim (named_session c) [
    | none ↦ (unauthorized, ss)
    | some old ↦ sign_rotated jwt at (rotate drawn now old refresh_ttl ss)
  ]
]

-- RevokeRefreshToken, which does not look at `typ`.
pub revoke_refresh_token : Jwt → ℕ → Text → Sessions → Sessions
revoke_refresh_token jwt now token ss = if is_empty token then ss else elim (jwt.parse now token) [
  | none ↦ ss
  | some c ↦ elim c.refresh_jti [
    | none ↦ ss
    | some jti ↦ if is_empty jti then ss else revoke jti ss
  ]
]

-- ClaimsFromAccess: the user of an access token. The type of the token is the caller's to check.
pub claims_from_access : Option Claims → Option ℕ
claims_from_access none = none
claims_from_access (some c) = c.user_id
