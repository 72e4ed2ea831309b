-- ===== src/Tunnel/Service.antt =====
-- backend/internal/service/tunnel.go: Start and the operations that are built on it.
pub mod Coherence
pub mod Reload
pub mod History
use xray2wg.Base.{
  ℕ, Bool, not, Option, none, some, List, [], ◌∷◌, ◌++◌, Text, codes, itoa, map, contains, nat_eq,
  trim_space, insert, if◌then◌else◌,
}
use xray2wg.Domain.{WgInterface, VlessNode}
use xray2wg.Domain.Errors.{GoError, plain, wrap, Result, ok, err}
use xray2wg.Netconf.Kernel.{Kernel}
use xray2wg.Wireguard
use xray2wg.Xray
use xray2wg.Tunnel.Repo.{get_by_id, list_running_ids}
use xray2wg.Tunnel.World.{
  World, Env, restore_failed, compute_runtime, client_subnet, local_gateway, or_round_robin, log,
}
use xray2wg.Tunnel.Nodes.{parse_or_keep, junction_nodes, resolve_nodes}
use xray2wg.Tunnel.Start.{Plan, start_wg}
use xray2wg.Tunnel.Stop.{stop}

abbrev first_flow : List VlessNode → Text
first_flow [] = []
first_flow (n ∷ ns) = n.flow

module _ (h : Kernel) where
  -- The last checks before the host is touched: key, peers and subnet.
  pub start_checked :
      Env → ℕ → Text → WgInterface → List VlessNode → World h.K → Option GoError × World h.K
  start_checked env id key iface nodes w = elim (env.decrypt key) [
    | err e ↦ (some e, w)
    | ok priv ↦ elim env.peers [
      | err e ↦ (some e, w)
      | ok peers ↦ elim (client_subnet env iface.wg_address) [
        | err e ↦ (some (wrap (codes "invalid wg address") e), w)
        | ok subnet ↦
            start_wg h env id
              (record {
                iface = iface;
                nodes = nodes;
                flow = first_flow nodes;
                strategy = or_round_robin iface.balancing_strategy;
                priv = trim_space priv;
                peers = peers;
                subnet = subnet;
                gateway = local_gateway env iface.wg_address;
              })
              w
      ]
    ]
  ]

  pub start_resolved :
      Env
      → ℕ
      → Text
      → Result (List VlessNode) × WgInterface × (List (ℕ × (WgInterface × Text)))
      → World h.K
      → Option GoError × World h.K
  unfolding start_checked
  start_resolved env id key (err e, iface, rows) w = (some e, record w { rows = rows })
  start_resolved env id key (ok nodes, iface, rows) w =
      start_checked env id key iface nodes (record w { rows = rows })

  pub start : Env → ℕ → World h.K → Option GoError × World h.K
  unfolding start_resolved
  start env id w =
      if contains id w.running then (none, w) else (elim (get_by_id env.get_fault id w.rows) [
        | err e ↦ (some e, w)
        | ok (iface, key) ↦ start_resolved env id key (resolve_nodes env iface w.rows) w
      ])

  note_failure : ℕ → Option GoError × World h.K → World h.K
  note_failure id (none, w) = w
  note_failure id (some e, w) = log (restore_failed id e) w

  pub restore_each : (ℕ → Env) → List ℕ → World h.K → World h.K
  unfolding note_failure
  restore_each envs [] w = w
  restore_each envs (id ∷ ids) w = restore_each envs ids (note_failure id (start (envs id) id w))

  -- RestoreRunning: the outside answers each Start in its own way.
  pub restore_running : (ℕ → Env) → Option Text → World h.K → World h.K
  unfolding restore_each
  restore_running envs fault w = elim (list_running_ids fault w.rows) [
    | err e ↦ w
    | ok ids ↦ restore_each envs ids w
  ]

  reload_error : ℕ → GoError
  reload_error id = plain (codes "ReloadNodes: no nodes assigned to tunnel " ++ itoa id)

  reload_with : Env → ℕ → WgInterface → List VlessNode → World h.K → Option GoError × World h.K
  unfolding reload_error
  reload_with env id iface [] w = (some (reload_error id), w)
  reload_with env id iface (n ∷ ns) w =
      let r = compute_runtime id in
      let i : Xray.Instance = record {
        port = r.port;
        fwmark = r.fwmark;
        gateway = local_gateway env iface.wg_address;
        nodes = map (parse_or_keep env) (n ∷ ns);
        strategy = or_round_robin iface.balancing_strategy;
      } in
      elim (Xray.start env.xray_fault id i w.instances) [
        | err e ↦ (some e, w)
        | ok is ↦ (none, record w { instances = is })
      ]

  pub reload_nodes : Env → ℕ → World h.K → Option GoError × World h.K
  unfolding reload_with
  reload_nodes env id w =
      if contains id w.running
      then (elim (get_by_id env.get_fault id w.rows) [
        | err e ↦ (some e, w)
        | ok (iface, key) ↦ reload_with env id iface (junction_nodes env) w
      ])
      else (none, w)

  reload_device : Env → ℕ → WgInterface → Text → World h.K → Option GoError × World h.K
  reload_device env id iface key w = elim (env.decrypt key) [
    | err e ↦ (some e, w)
    | ok priv ↦ elim env.peers [
      | err e ↦ (some e, w)
      | ok peers ↦
          elim (Wireguard.reload_peers env.parse_key env.wg id iface.listen_port (trim_space priv)
            peers (some env.psk) w.devices) [
              | err e ↦ (some e, w)
              | ok ds ↦ (none, record w { devices = ds })
            ]
    ]
  ]

  pub reload_peers : Env → ℕ → World h.K → Option GoError × World h.K
  unfolding reload_device
  reload_peers env id w =
      if contains id w.running
      then (elim (get_by_id env.get_fault id w.rows) [
        | err e ↦ (some e, w)
        | ok (iface, key) ↦ reload_device env id iface key w
      ])
      else (none, w)
