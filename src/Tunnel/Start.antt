-- ===== src/Tunnel/Start.antt =====
-- backend/internal/service/tunnel.go: Start, step by step from the last to the first, with the rollback of each step.
pub mod Rollback
use xray2wg.Base.{
  ℕ, Option, none, some, List, [], ◌∷◌, ◌++◌, Text, codes, map, contains, add, nat_eq, trim_space,
  if◌then◌else◌,
}
use xray2wg.Domain.{WgInterface, WgStatus, WgPeer, VlessNode, BalancingStrategy}
use xray2wg.Domain.Errors.{GoError, plain, wrap, error_text, Result, ok, err}
use xray2wg.Netconf.Kernel.{Kernel}
use xray2wg.Netconf.TProxy.{setup_tproxy, teardown_tproxy}
use xray2wg.Netconf.Forward.{setup_forward_rules, teardown_forward_rules}
use xray2wg.Netconf.Nat.{setup_nat_masquerade}
use xray2wg.Netconf.Routing.{setup_return_route, teardown_return_route, assign_tun, prepare_tun}
use xray2wg.Wireguard
use xray2wg.Xray
use xray2wg.Tunnel.Repo.{get_by_id, update, update_status}
use xray2wg.Tunnel.World.{
  World, Env, Event, started, Runtime, compute_runtime, client_subnet, local_gateway,
  or_round_robin, on_kernel, log,
}
use xray2wg.Tunnel.Stop.{stop_internal}

-- What Start has computed before its first side effect on the host.
pub record Plan : Type 0 where
  pub iface : WgInterface
  pub nodes : List VlessNode
  pub flow : Text
  pub strategy : BalancingStrategy
  pub priv : Text
  pub peers : List WgPeer
  pub subnet : Text
  pub gateway : Text

module _ (h : Kernel) (env : Env) (id : ℕ) where
  -- `UpdateStatus(error)` and `return err`
  abort : GoError → World h.K → Option GoError × World h.K
  abort e w = (
    some e,
    record w { rows = update_status env.status_fault id WgStatus.error (error_text e) w.rows },
  )

  undo_wg : World h.K → World h.K
  undo_wg w = record w { devices = Wireguard.destroy id w.devices }

  undo_route : World h.K → World h.K
  unfolding undo_wg
  undo_route w =
      let r = compute_runtime id in undo_wg (on_kernel (teardown_return_route h r.fwmark r.table) w)

  undo_xray : World h.K → World h.K
  unfolding undo_route
  undo_xray w = undo_route (record w { instances = Xray.stop id w.instances })

  undo_tproxy : World h.K → World h.K
  unfolding undo_xray
  undo_tproxy w =
      let r = compute_runtime id in undo_xray (on_kernel (teardown_tproxy h id r.tun r.fwmark) w)

  undo_forward : World h.K → World h.K
  unfolding undo_tproxy
  undo_forward w =
      let r = compute_runtime id in undo_tproxy (on_kernel (teardown_forward_rules h r.tun) w)

  module _ (p : Plan) where
    running_row : WgInterface
    running_row =
        let r = compute_runtime id in
        record (p.iface) {
          status = WgStatus.running;
          error_message = [];
          uptime_started = some env.now;
          tun_name = r.tun;
          xray_port = r.port;
          fwmark = r.fwmark;
        }

    mark_running : World h.K → World h.K
    mark_running w =
        log (started id) (record w { running = add id w.running; tracked = add id w.tracked })

    finish : World h.K → Option GoError × World h.K
    unfolding running_row mark_running
    finish w =
        let (e, rows) = update env.update_fault running_row w.rows in
        let w' = record w { rows = rows } in
        let r = compute_runtime id in
        elim e [
          | some m ↦ (some m, stop_internal h id r.tun r.fwmark r.table p.subnet w')
          | none ↦ (none, mark_running w')
        ]

    start_nat : World h.K → Option GoError × World h.K
    unfolding undo_forward abort
    start_nat w =
        let r = compute_runtime id in
        let (e, k) = setup_nat_masquerade h r.tun p.subnet w.kernel in
        let w' = record w { kernel = k } in
        elim e [ some m ↦ abort m (undo_forward w') | none ↦ finish w' ]

    start_forward : World h.K → Option GoError × World h.K
    unfolding undo_tproxy abort
    start_forward w =
        let r = compute_runtime id in
        let (e, k) = setup_forward_rules h r.tun w.kernel in
        let w' = record w { kernel = k } in
        elim e [ some m ↦ abort m (undo_tproxy w') | none ↦ start_nat w' ]

    start_tproxy : World h.K → Option GoError × World h.K
    unfolding undo_xray abort
    start_tproxy w =
        let r = compute_runtime id in
        let (e, k) =
          setup_tproxy h id r.tun r.port r.fwmark p.gateway p.flow p.iface.mss_clamp w.kernel in
        let w' = record w { kernel = k } in
        elim e [ some m ↦ abort m (undo_xray w') | none ↦ start_forward w' ]

    abbrev new_instance : Xray.Instance
    new_instance =
        let r = compute_runtime id in
        record {
          port = r.port;
          fwmark = r.fwmark;
          gateway = p.gateway;
          nodes = p.nodes;
          strategy = p.strategy;
        }

    start_xray : World h.K → Option GoError × World h.K
    unfolding undo_route abort
    start_xray w = elim (Xray.start env.xray_fault id new_instance w.instances) [
      | err m ↦ abort m (undo_route w)
      | ok is ↦ start_tproxy (record w { instances = is })
    ]

    start_route : World h.K → Option GoError × World h.K
    unfolding undo_wg abort
    start_route w =
        let r = compute_runtime id in
        let (e, k) = setup_return_route h r.fwmark r.table w.kernel in
        let w' = record w { kernel = k } in
        elim e [ some m ↦ abort m (undo_wg w') | none ↦ start_xray w' ]

    start_tun : World h.K → Option GoError × World h.K
    unfolding undo_wg abort
    start_tun w =
        let r = compute_runtime id in
        let (e, k) = assign_tun h r.tun p.iface.wg_address w.kernel in
        let w' = record w { kernel = k } in
        elim e [
          | some m ↦ abort m (undo_wg w')
          | none ↦ start_route (on_kernel (prepare_tun h r.tun) w')
        ]

    pub start_wg : World h.K → Option GoError × World h.K
    unfolding abort
    start_wg w =
        let r = compute_runtime id in
        elim (Wireguard.create env.parse_key env.wg id p.iface.listen_port p.priv p.peers
          (some env.psk) r.tun w.devices) [
            | err m ↦ abort m w
            | ok ds ↦ start_tun (record w { devices = ds })
          ]
