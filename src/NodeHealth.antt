-- ===== src/NodeHealth.antt =====
-- backend/internal/service/node_health.go: the cache of probes by node. The nodes come from the
-- database and what a dial measures from the network: both are arguments. The probes of one cycle
-- run at once and each writes its own node's entry; here they are taken in the list's order.
pub mod Cycle
use xray2wg.Base.{
  ℕ, Bool, true, false, not, ◌&&◌, Option, none, some, List, [], ◌∷◌, Text, is_empty, nat_eq, ◌==◌,
  leb, lookup, insert, contains, erase, if◌then◌else◌,
}
use xray2wg.Base.Int.{ℤ, pos, negsuc}
use xray2wg.Domain.{VlessNode}
use xray2wg.Domain.Errors.{GoError, Result, ok, err}

-- NodeHealthSnapshot
pub record Snapshot : Type 0 where
  pub alive : Bool
  pub delay_ms : ℤ
  pub sampled_at : ℕ

abbrev pub Cache : Type 0
Cache = List (ℕ × Snapshot)

-- probeOne: the delay of a connection that was made, or none; and the time after it.
pub probe_one : (Text → ℕ → Option ℕ × ℕ) → VlessNode → Snapshot
probe_one dial n =
    let (delay, now) = dial n.address n.port in
    elim delay [
      | none ↦ record { alive = false; delay_ms = negsuc 0; sampled_at = now }
      | some d ↦ record { alive = true; delay_ms = pos d; sampled_at = now }
    ]

-- `n == nil || n.Address == "" || n.Port <= 0` is passed over.
pub is_probed : VlessNode → Bool
is_probed n = not (is_empty n.address) && leb 1 n.port

pub probe_each : (Text → ℕ → Option ℕ × ℕ) → List VlessNode → Cache → Cache
probe_each dial [] m = m
probe_each dial (n ∷ ns) m =
    probe_each dial ns (if is_probed n then insert n.id (probe_one dial n) m else m)

abbrev pub node_ids : List VlessNode → List ℕ
node_ids [] = []
node_ids (n ∷ ns) = n.id ∷ node_ids ns

-- The entries of nodes that are gone are deleted.
pub keep_known : List ℕ → Cache → Cache
keep_known ids [] = []
keep_known ids ((id, s) ∷ m) =
    let rest = keep_known ids m in if contains id ids then (id, s) ∷ rest else rest

-- probeAll
pub probe_all : (Text → ℕ → Option ℕ × ℕ) → Result (List VlessNode) → Cache → Cache
probe_all dial (err e) m = m
probe_all dial (ok []) m = m
probe_all dial (ok (n ∷ ns)) m = keep_known (node_ids (n ∷ ns)) (probe_each dial (n ∷ ns) m)
