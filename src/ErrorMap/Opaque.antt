-- ===== src/ErrorMap/Opaque.antt =====
-- A server error tells the client nothing, and wrapping does not change an answer.
use xray2wg.Base.{ℕ, ◌≤◌, true, Text, codes, nat_eq, ◌≡◌, refl, arith, ◌↔◌, Option-cases, inl, inr}
use xray2wg.Domain.Errors.{Sentinel, ErrorCode, HttpMessage, GoError}
use xray2wg.ErrorMap.{
  MappedError, as_domain, as_sentinel, as_http, http_status_and_code_for_domain, internal_error,
  client_error, map_domain, map_sentinel, map_http, map_error,
}

-- An answer is either an opaque server error that is logged in full, or a client error that is not.
abbrev pub IsGuarded : MappedError → Type 0
IsGuarded m =
    ((m.log_full ≡ true) ↔ (500 ≤ m.status))
    × (m.log_full ≡ true
        → (m.code ≡ codes "INTERNAL") × (m.client_msg ≡ codes "internal server error"))

internal_error-IsGuarded : (st : ℕ) → 500 ≤ st → IsGuarded (internal_error st)
unfolding internal_error
internal_error-IsGuarded st h = ((λ e. h, λ e. refl), λ e. (refl, refl))

map_domain-IsGuarded : (d : ErrorCode × Text) → IsGuarded (map_domain d)
unfolding map_domain http_status_and_code_for_domain client_error internal_error
map_domain-IsGuarded (ErrorCode.not_found, m) = ground arith
map_domain-IsGuarded (ErrorCode.unauthorized, m) = ground arith
map_domain-IsGuarded (ErrorCode.forbidden, m) = ground arith
map_domain-IsGuarded (ErrorCode.validation, m) = ground arith
map_domain-IsGuarded (ErrorCode.conflict, m) = ground arith
map_domain-IsGuarded (ErrorCode.node_in_use, m) = ground arith
map_domain-IsGuarded (ErrorCode.rate_limited, m) = ground arith
map_domain-IsGuarded (ErrorCode.bootstrap_done, m) = ground arith
map_domain-IsGuarded (ErrorCode.internal, m) = ground arith
map_domain-IsGuarded (ErrorCode.unknown t, m) = ground arith

map_sentinel-IsGuarded : (s : Sentinel) → IsGuarded (map_sentinel s)
unfolding map_sentinel client_error
map_sentinel-IsGuarded Sentinel.not_found = ground arith
map_sentinel-IsGuarded Sentinel.conflict = ground arith
map_sentinel-IsGuarded Sentinel.node_in_use = ground arith
map_sentinel-IsGuarded Sentinel.validation = ground arith
map_sentinel-IsGuarded Sentinel.unauthorized = ground arith
map_sentinel-IsGuarded Sentinel.rate_limited = ground arith
map_sentinel-IsGuarded Sentinel.bootstrap_done = ground arith
map_sentinel-IsGuarded Sentinel.invalid_password = ground arith

map_http-IsGuarded :
    (status_text : ℕ → Text) (h : ℕ × HttpMessage) → IsGuarded (map_http status_text h)
unfolding map_http client_error internal_error
map_http-IsGuarded status_text (n, m) = ground arith

-- An error is logged in full exactly when it is answered with a status of 500 or more, and the
-- client then gets the code INTERNAL and the fixed message, whatever the error says.
pub map_error-IsGuarded :
    (status_text : ℕ → Text) (e : GoError) → IsGuarded (map_error status_text e)
unfolding map_error
map_error-IsGuarded status_text e = elim (Option-cases (as_domain e)) [
  | inr (d, found) ↦ rw (found, map_error) (map_domain-IsGuarded d)
  | inl no_domain ↦ elim (Option-cases (as_sentinel e)) [
    | inr (s, found) ↦ rw (no_domain, map_error, found) (map_sentinel-IsGuarded s)
    | inl no_sentinel ↦ elim (Option-cases (as_http e)) [
      | inr (h, found) ↦
          rw (no_domain, map_error, no_sentinel, found) (map_http-IsGuarded status_text h)
      | inl no_http ↦
          rw (no_domain, map_error, no_sentinel, no_http)
            (internal_error-IsGuarded 500 (omega arith))
    ]
  ]
]
