-- ===== src/Tunnel/Nodes.antt =====
-- backend/internal/service/tunnel.go: how Start finds the upstream nodes of a tunnel.
use xray2wg.Base.{ℕ, Option, none, some, List, [], ◌∷◌, codes, map}
use xray2wg.Domain.{WgInterface, VlessNode}
use xray2wg.Domain.Errors.{plain, Result, ok, err}
use xray2wg.Tunnel.Repo.{Rows, update}
use xray2wg.Tunnel.World.{Env}

module _ (env : Env) where
  -- A node whose URI does not parse is used as it is stored.
  pub parse_or_keep : VlessNode → VlessNode
  parse_or_keep n = elim (env.parse_uri n.raw_uri) [ none ↦ n | some p ↦ p ]

  -- A subscription with a single node stands in for a missing active node. The error of the update
  -- is only logged.
  restore_single : WgInterface → List VlessNode → Rows → WgInterface × Rows
  restore_single iface (n ∷ []) rows =
      let iface' = record iface { active_node_id = some n.id } in
      (iface', (update env.restore_fault iface' rows).1)
  restore_single iface ns rows = (iface, rows)

  restore_from : WgInterface → Option ℕ → Option ℕ → Rows → WgInterface × Rows
  unfolding restore_single
  restore_from iface none (some s) rows = elim (env.sub_nodes s) [
    | none ↦ (iface, rows)
    | some ns ↦ restore_single iface ns rows
  ]
  restore_from iface none none rows = (iface, rows)
  restore_from iface (some n) s rows = (iface, rows)

  restore_active : WgInterface → Rows → WgInterface × Rows
  unfolding restore_from
  restore_active iface rows = restore_from iface iface.active_node_id iface.subscription_id rows

  legacy_node : Option ℕ → Result (List VlessNode)
  unfolding parse_or_keep
  legacy_node none = err (plain (codes "active node required"))
  legacy_node (some n) = elim (env.get_node n) [
    | err e ↦ err e
    | ok node ↦ ok (parse_or_keep node ∷ [])
  ]

  -- `err != nil` and an empty list are treated alike.
  pub junction_nodes : List VlessNode
  junction_nodes = elim env.junction [ none ↦ [] | some ns ↦ ns ]

  from_junction : List VlessNode → WgInterface → Rows → Result (List VlessNode) × WgInterface × Rows
  unfolding legacy_node restore_active parse_or_keep
  from_junction [] iface rows =
      let (iface', rows') = restore_active iface rows in
      (legacy_node iface'.active_node_id, iface', rows')
  from_junction (n ∷ ns) iface rows = (ok (map parse_or_keep (n ∷ ns)), iface, rows)

  -- The nodes, the interface with its active node restored, and the rows.
  pub resolve_nodes : WgInterface → Rows → Result (List VlessNode) × WgInterface × Rows
  unfolding from_junction junction_nodes
  resolve_nodes iface rows = from_junction junction_nodes iface rows
