-- ===== src/ClientIp/Fresh.antt =====
-- The address is one that no peer has, and there is one unless all are taken.
use xray2wg.Base.{
  ℕ, zero, suc, ◌+◌, ◌≤◌, ◌<◌, Bool, true, false, Option, none, some, List, [], ◌∷◌, Text, nat_eq,
  ◌==◌, ◌&&◌, contains, contains-add, if◌then◌else◌, ◌≡◌, refl, arith, Option-cases, inl, inr, sym,
  Bool-cases, ◌⊎◌,
}
use xray2wg.Domain.{WgPeer}
use xray2wg.Domain.Errors.{Result, ok, err, Result-cases, sentinel, Sentinel}
use xray2wg.ClientIp.{Ip4, ParseCidr, same_prefix, used, first_free, client_address, next_client_ip}

-- The peer's address is this byte of the prefix.
abbrev pub has_address : ParseCidr → Ip4 → ℕ → WgPeer → Bool
has_address parse p b pr = elim (parse pr.client_address) [
  | err e ↦ false
  | ok r ↦ elim r.0 [ none ↦ false | some a ↦ same_prefix a p && (a.b3 == b) ]
]

abbrev pub any_has : ParseCidr → Ip4 → ℕ → List WgPeer → Bool
any_has parse p b [] = false
any_has parse p b (pr ∷ peers) = if has_address parse p b pr then true else any_has parse p b peers

contains-used :
    (parse : ParseCidr) (p : Ip4) (b : ℕ) (peers : List WgPeer)
    → contains b (used parse p peers) ≡ any_has parse p b peers
unfolding used contains
contains-used parse p b [] = refl
contains-used parse p b (pr ∷ peers) = elim (Result-cases (parse pr.client_address)) [
  | inl (e, failed) ↦ ground (arith, contains-used parse p b peers)
  | inr (r, parsed) ↦ elim (Option-cases r.0) [
    | inl six ↦ ground (arith, contains-used parse p b peers)
    | inr (a, four) ↦
        ground (arith, contains-used parse p b peers, contains-add a.b3 b (used parse p peers))
  ]
]

first_free-some :
    (n b : ℕ) (taken : List ℕ) (f : ℕ)
    → first_free n b taken ≡ some f
    → (b ≤ f) × (f < b + n) × (contains f taken ≡ false)
unfolding first_free
first_free-some zero b taken f h = ground arith
first_free-some (suc n) b taken f h = ground (arith, first_free-some n (suc b) taken f)

first_free-none :
    (n b : ℕ) (taken : List ℕ)
    → first_free n b taken ≡ none
    → (f : ℕ) → b ≤ f
    → f < b + n
    → contains f taken ≡ true
unfolding first_free
first_free-none zero b taken h f l u = ground arith
first_free-none (suc n) b taken h f l u = elim (Bool-cases (contains b taken)) [
  | inl here ↦ elim (Bool-cases (f == b)) [
    | inl same ↦ rw (f_is_b same) here
    | inr other ↦ first_free-none n (suc b) taken (rest_none here) f (above other) (omega arith)
  ]
  | inr free ↦ elim (is_free free) [ ]
]
  where
    f_is_b : (f == b) ≡ true → f ≡ b
    f_is_b e = ground arith

    above : (f == b) ≡ false → suc b ≤ f
    above e = ground arith

    rest_none : contains b taken ≡ true → first_free n (suc b) taken ≡ none
    rest_none e = ground arith

    is_free : contains b taken ≡ false → ⊥
    is_free e = ground arith

-- What NextClientIP returns, for a network p and the peers that are known.
abbrev pub IsNext : ParseCidr → Ip4 → List WgPeer → Result Text → Type 0
IsNext parse p peers r =
    ((b : ℕ) × (2 ≤ b)
      × (b < 255)
      × (r ≡ ok (client_address p b))
      × (any_has parse p b peers ≡ false))
    ⊎ ((r ≡ err (sentinel Sentinel.conflict))
        × ((b : ℕ) → 2 ≤ b → b < 255 → any_has parse p b peers ≡ true))

-- For an IPv4 network and readable peers, the address returned is the network's first three bytes
-- and a last byte from 2 to 254 that no peer's address has; ErrConflict is returned only when each
-- of these bytes is some peer's.
pub next_client_ip-IsNext :
    (parse : ParseCidr) (peers : List WgPeer) (cidr : Text) (a : Option Ip4) (p : Ip4)
    → parse cidr ≡ ok (a, some p)
    → IsNext parse p peers (next_client_ip parse (ok peers) cidr)
unfolding next_client_ip
next_client_ip-IsNext parse peers cidr a p parsed =
    elim (Option-cases (first_free 253 2 (used parse p peers))) [
      | inl none_left ↦ inr (
        rw (parsed, next_client_ip, none_left) refl,
        λ b l u.
            rw (sym (contains-used parse p b peers))
              (first_free-none 253 2 (used parse p peers) none_left b l u),
      )
      | inr (b, found) ↦
          let (l, u, free) = first_free-some 253 2 (used parse p peers) b found in
          inl (
            b,
            l,
            u,
            rw (parsed, next_client_ip, found) refl,
            rw (sym (contains-used parse p b peers)) free,
          )
    ]
