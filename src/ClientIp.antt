-- ===== src/ClientIp.antt =====
-- backend/internal/service/peer.go: the address a new peer gets. Parsing a CIDR is the net package's:
-- it gives the address and the network, each as four bytes where it is an IPv4 address.
pub mod Fresh
use xray2wg.Base.{
  ℕ, zero, suc, ◌+◌, Bool, true, false, Option, none, some, List, [], ◌∷◌, ◌++◌, Text, codes, itoa,
  nat_eq, ◌==◌, ◌&&◌, contains, add, if◌then◌else◌,
}
use xray2wg.Domain.{WgPeer}
use xray2wg.Domain.Errors.{GoError, sentinel, plain, Sentinel, Result, ok, err}

pub record Ip4 : Type 0 where
  pub b0 : ℕ
  pub b1 : ℕ
  pub b2 : ℕ
  pub b3 : ℕ

-- net.ParseCIDR, each address through To4: nil where it is no IPv4 address.
abbrev pub ParseCidr : Type 0
ParseCidr = Text → Result (Option Ip4 × Option Ip4)

abbrev pub same_prefix : Ip4 → Ip4 → Bool
same_prefix a p = (a.b0 == p.b0) && (a.b1 == p.b1) && (a.b2 == p.b2)

-- The last bytes that the peers' addresses take in the prefix.
pub used : ParseCidr → Ip4 → List WgPeer → List ℕ
used parse p [] = []
used parse p (pr ∷ peers) =
    let rest = used parse p peers in
    elim (parse pr.client_address) [
      | err e ↦ rest
      | ok r ↦ elim r.0 [ none ↦ rest | some a ↦ if same_prefix a p then add a.b3 rest else rest ]
    ]

-- `for b := byte(2); b < 255; b++`, the bytes that are left as fuel.
pub first_free : ℕ → ℕ → List ℕ → Option ℕ
first_free zero b taken = none
first_free (suc n) b taken =
    let rest = first_free n (suc b) taken in if contains b taken then rest else some b

pub client_address : Ip4 → ℕ → Text
client_address p b =
    itoa p.b0
    ++ codes "."
    ++ itoa p.b1
    ++ codes "."
    ++ itoa p.b2
    ++ codes "."
    ++ itoa b
    ++ codes "/32"

-- NextClientIP; the peers are what ListByInterface returns.
pub next_client_ip : ParseCidr → Result (List WgPeer) → Text → Result Text
next_client_ip parse peers cidr = elim (parse cidr) [
  | err e ↦ err e
  | ok r ↦ elim r.1 [
    | none ↦ err (plain (codes "need ipv4 cidr"))
    | some p ↦ elim peers [
      | err e ↦ err e
      | ok ps ↦ elim (first_free 253 2 (used parse p ps)) [
        | none ↦ err (sentinel Sentinel.conflict)
        | some b ↦ ok (client_address p b)
      ]
    ]
  ]
]
