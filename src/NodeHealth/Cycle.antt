-- ===== src/NodeHealth/Cycle.antt =====
-- What a cycle of probes leaves for each node.
use xray2wg.Base.{
  ℕ, ◌&&◌, Option, none, some, List, [], ◌∷◌, Text, nat_eq, ◌==◌, lookup, insert, lookup-insert,
  contains, if◌then◌else◌, ◌≡◌, refl, arith, Option-cases,
}
use xray2wg.Domain.{VlessNode}
use xray2wg.Domain.Errors.{ok}
use xray2wg.NodeHealth.{
  Snapshot, Cache, probe_one, is_probed, probe_each, node_ids, keep_known, probe_all,
}

-- The last node of this id that is probed.
abbrev pub last_probed : ℕ → List VlessNode → Option VlessNode
last_probed id [] = none
last_probed id (n ∷ ns) = elim (last_probed id ns) [
  | some later ↦ some later
  | none ↦ if n.id == id && is_probed n then some n else none
]

-- The entry of a node after a cycle: its new probe, or the one there was.
abbrev pub next_entry :
    (Text → ℕ → Option ℕ × ℕ) → Option VlessNode → Option Snapshot → Option Snapshot
next_entry dial (some n) before = some (probe_one dial n)
next_entry dial none before = before

lookup-probe_each :
    (dial : Text → ℕ → Option ℕ × ℕ) (ns : List VlessNode) (m : Cache) (id : ℕ)
    → lookup id (probe_each dial ns m) ≡ next_entry dial (last_probed id ns) (lookup id m)
unfolding probe_each
lookup-probe_each dial [] m id = refl
lookup-probe_each dial (n ∷ ns) m id = ground (
  arith,
  lookup-probe_each dial ns (if is_probed n then insert n.id (probe_one dial n) m else m) id,
  Option-cases (last_probed id ns),
  lookup-insert n.id id (probe_one dial n) m,
)

lookup-keep_known :
    (ids : List ℕ) (m : Cache) (id : ℕ)
    → lookup id (keep_known ids m) ≡ (if contains id ids then lookup id m else none)
unfolding keep_known lookup
lookup-keep_known ids [] id = ground arith
lookup-keep_known ids ((k, s) ∷ m) id = ground (arith, lookup-keep_known ids m id)

-- After a cycle over a list of nodes that is not empty, the cache has an entry only for nodes of the
-- list; a node that was probed has its new probe (the last one of its id), and every other node of
-- the list keeps the entry it had.
pub lookup-probe_all :
    (dial : Text → ℕ → Option ℕ × ℕ) (n : VlessNode) (ns : List VlessNode) (m : Cache) (id : ℕ)
    → lookup id (probe_all dial (ok (n ∷ ns)) m) ≡ (
        if contains id (node_ids (n ∷ ns))
        then next_entry dial (last_probed id (n ∷ ns)) (lookup id m)
        else none)
unfolding probe_all
lookup-probe_all dial n ns m id =
    rw
      (
        lookup-keep_known (node_ids (n ∷ ns)) (probe_each dial (n ∷ ns) m) id,
        lookup-probe_each dial (n ∷ ns) m id,
      )
      refl
