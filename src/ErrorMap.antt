-- ===== src/ErrorMap.antt =====
-- backend/internal/api/middleware/errors.go: the HTTP answer to an error chain. The text of a
-- status is net/http's, an argument.
pub mod Opaque
use xray2wg.Base.{
  ℕ, Bool, true, false, Option, none, some, Text, codes, leb, ◌==◌, nat_eq, if◌then◌else◌,
}
use xray2wg.Domain.Errors.{
  Sentinel, ErrorCode, HttpMessage, GoError, sentinel, domain, domain_wrap, http, wrap, plain,
  of_text, sentinel_text,
}

pub record MappedError : Type 0 where
  pub status : ℕ
  pub code : Text
  pub client_msg : Text
  pub log_full : Bool

-- `errors.As(err, &de)`: the first *domain.Error of the chain.
pub as_domain : GoError → Option (ErrorCode × Text)
as_domain (domain c m) = some (c, m)
as_domain (domain_wrap c m e) = some (c, m)
as_domain (wrap t e) = as_domain e
as_domain _ = none

-- The sentinel at the end of the chain, which `errors.Is` compares with each one in turn.
pub as_sentinel : GoError → Option Sentinel
as_sentinel (sentinel s) = some s
as_sentinel (domain_wrap c m e) = as_sentinel e
as_sentinel (wrap t e) = as_sentinel e
as_sentinel _ = none

-- `errors.As(err, &he)`
pub as_http : GoError → Option (ℕ × HttpMessage)
as_http (http n m) = some (n, m)
as_http (domain_wrap c m e) = as_http e
as_http (wrap t e) = as_http e
as_http _ = none

-- httpStatusAndCodeForDomain, the code as its text.
pub http_status_and_code_for_domain : ErrorCode → ℕ × Text
http_status_and_code_for_domain ErrorCode.not_found = (404, codes "NOT_FOUND")
http_status_and_code_for_domain ErrorCode.unauthorized = (401, codes "UNAUTHORIZED")
http_status_and_code_for_domain ErrorCode.forbidden = (403, codes "FORBIDDEN")
http_status_and_code_for_domain ErrorCode.validation = (400, codes "VALIDATION")
http_status_and_code_for_domain ErrorCode.conflict = (409, codes "CONFLICT")
http_status_and_code_for_domain ErrorCode.node_in_use = (409, codes "NODE_IN_USE")
http_status_and_code_for_domain ErrorCode.rate_limited = (429, codes "RATE_LIMIT")
http_status_and_code_for_domain ErrorCode.bootstrap_done = (400, codes "BOOTSTRAP_DONE")
http_status_and_code_for_domain ErrorCode.internal = (500, codes "INTERNAL")
http_status_and_code_for_domain (ErrorCode.unknown t) = (500, codes "INTERNAL")

-- The answer that says nothing of the error.
internal_error : ℕ → MappedError
internal_error st = record {
  status = st;
  code = codes "INTERNAL";
  client_msg = codes "internal server error";
  log_full = true;
}

client_error : ℕ → Text → Text → MappedError
client_error st c m = record { status = st; code = c; client_msg = m; log_full = false }

map_domain : ErrorCode × Text → MappedError
map_domain (c, m) =
    let (st, t) = http_status_and_code_for_domain c in
    if leb 500 st then internal_error st else client_error st t m

-- The switch over the sentinels.
map_sentinel : Sentinel → MappedError
map_sentinel Sentinel.unauthorized =
    client_error 401 (codes "UNAUTHORIZED") (sentinel_text Sentinel.unauthorized)
map_sentinel Sentinel.not_found =
    client_error 404 (codes "NOT_FOUND") (sentinel_text Sentinel.not_found)
map_sentinel Sentinel.conflict =
    client_error 409 (codes "CONFLICT") (sentinel_text Sentinel.conflict)
map_sentinel Sentinel.node_in_use =
    client_error 409 (codes "NODE_IN_USE") (sentinel_text Sentinel.node_in_use)
map_sentinel Sentinel.validation =
    client_error 400 (codes "VALIDATION") (sentinel_text Sentinel.validation)
map_sentinel Sentinel.rate_limited =
    client_error 429 (codes "RATE_LIMIT") (sentinel_text Sentinel.rate_limited)
map_sentinel Sentinel.bootstrap_done =
    client_error 400 (codes "BOOTSTRAP_DONE") (sentinel_text Sentinel.bootstrap_done)
map_sentinel Sentinel.invalid_password =
    client_error 401 (codes "UNAUTHORIZED") (sentinel_text Sentinel.invalid_password)

module _ (status_text : ℕ → Text) where
  pub http_status_text_safe : ℕ → HttpMessage → Text
  http_status_text_safe n (of_text m) = m
  http_status_text_safe n (HttpMessage.of_error m) = m
  http_status_text_safe n HttpMessage.nil = status_text n
  http_status_text_safe n HttpMessage.other = status_text n

  map_http : ℕ × HttpMessage → MappedError
  map_http (n, m) =
      if leb 500 n
      then internal_error 500
      else client_error n (if n == 401 then codes "UNAUTHORIZED" else codes "HTTP_ERROR")
          (http_status_text_safe n m)

  pub map_error : GoError → MappedError
  map_error e = elim (as_domain e) [
    | some d ↦ map_domain d
    | none ↦ elim (as_sentinel e) [
      | some s ↦ map_sentinel s
      | none ↦ elim (as_http e) [ some h ↦ map_http h | none ↦ internal_error 500 ]
    ]
  ]
