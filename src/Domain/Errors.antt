-- ===== src/Domain/Errors.antt =====
-- backend/internal/domain/errors.go, and the shape of the error chains that the program builds:
-- a sentinel, a *domain.Error with or without a cause, an *echo.HTTPError, a wrapping by %w, and
-- any other error with its text.
use xray2wg.Base.{ℕ, ◌++◌, [], Option, none, some, Text, codes, ◌≡◌, refl, ◌⊎◌, inl, inr}

pub data Sentinel : Type 0 where
  not_found conflict node_in_use validation : Sentinel
  unauthorized rate_limited bootstrap_done invalid_password : Sentinel

pub data ErrorCode : Type 0 where
  not_found unauthorized forbidden validation conflict : ErrorCode
  node_in_use rate_limited bootstrap_done internal : ErrorCode
  unknown : Text → ErrorCode

-- What an *echo.HTTPError carries: a text, the text of an error, nothing, or a value of another type.
pub data HttpMessage : Type 0 where
  of_text of_error : Text → HttpMessage
  nil other : HttpMessage

pub data GoError : Type 0 where
  sentinel : Sentinel → GoError
  domain : ErrorCode → Text → GoError
  domain_wrap : ErrorCode → Text → GoError → GoError
  http : ℕ → HttpMessage → GoError
  wrap : Text → GoError → GoError
  plain : Text → GoError

-- The texts of the sentinels.
unfoldable pub sentinel_text : Sentinel → Text
sentinel_text Sentinel.not_found = codes "not_found"
sentinel_text Sentinel.conflict = codes "conflict"
sentinel_text Sentinel.node_in_use =
    codes "manual node is in use by a tunnel; change the tunnel outbound first"
sentinel_text Sentinel.validation = codes "validation"
sentinel_text Sentinel.unauthorized = codes "unauthorized"
sentinel_text Sentinel.rate_limited = codes "rate_limited"
sentinel_text Sentinel.bootstrap_done = codes "bootstrap_done"
sentinel_text Sentinel.invalid_password = codes "invalid_password"

-- `err.Error()`; an *echo.HTTPError, which no service returns, shows its text.
unfoldable pub error_text : GoError → Text
error_text (sentinel s) = sentinel_text s
error_text (domain c m) = m
error_text (domain_wrap c m e) = m ++ codes ": " ++ error_text e
error_text (http n (of_text m)) = m
error_text (http n (HttpMessage.of_error m)) = m
error_text (http n HttpMessage.nil) = []
error_text (http n HttpMessage.other) = []
error_text (wrap t e) = t ++ codes ": " ++ error_text e
error_text (plain t) = t

-- `err.Unwrap()`
unfoldable pub unwrap : GoError → Option GoError
unwrap (domain_wrap c m e) = some e
unwrap (wrap t e) = some e
unwrap e = none

-- The (value, error) of a Go call.
pub data Result {ℓ} (A : Type ℓ) : Type ℓ where
  ok : A → Result A
  err : GoError → Result A

pub Result-cases {ℓ} :
    {A : Type ℓ} (r : Result A) → ((e : GoError) × (r ≡ err e)) ⊎ ((a : A) × (r ≡ ok a))
Result-cases (err e) = inl (e, refl)
Result-cases (ok a) = inr (a, refl)

-- `if err != nil { return err }` between the calls of a chain.
infixl 5 ◌>>=◌ ◌>>◌
abbrev pub ◌>>=◌ {ℓ κ} : {A : Type ℓ} {B : Type κ} → Result A → (A → Result B) → Result B
ok a >>= f = f a
err e >>= f = err e

abbrev pub ◌>>◌ {ℓ κ} : {A : Type ℓ} {B : Type κ} → Result A → Result B → Result B
ok a >> r = r
err e >> r = err e
