-- ===== src/Tunnel/Stop.antt =====
-- backend/internal/service/tunnel.go: stopInternal, teardownRuntime, Stop and ShutdownAll. Every teardown is best effort.
pub mod Teardown
use xray2wg.Base.{
  ℕ, Option, none, some, List, [], ◌∷◌, ◌++◌, Text, codes, itoa, is_empty, remove, nat_eq,
  if◌then◌else◌,
}
use xray2wg.Domain.{WgInterface, WgStatus}
use xray2wg.Domain.Errors.{GoError, Result, ok, err}
use xray2wg.Netconf.Kernel.{Kernel}
use xray2wg.Netconf.TProxy.{teardown_tproxy}
use xray2wg.Netconf.Forward.{teardown_forward_rules}
use xray2wg.Netconf.Nat.{teardown_nat_masquerade}
use xray2wg.Netconf.Routing.{teardown_return_route}
use xray2wg.Wireguard
use xray2wg.Xray
use xray2wg.Tunnel.Repo.{get_by_id, update, update_status}
use xray2wg.Tunnel.World.{
  World, Env, Event, stopped, Runtime, compute_runtime, client_subnet, on_kernel, log,
}

module _ (h : Kernel) where
  pub stop_internal : ℕ → Text → ℕ → ℕ → Text → World h.K → World h.K
  stop_internal id tun fwmark table subnet w =
      let w₁ = on_kernel (teardown_forward_rules h tun) w in
      let w₂ = on_kernel (teardown_nat_masquerade h tun subnet) w₁ in
      let w₃ = on_kernel (teardown_tproxy h id tun fwmark) w₂ in
      let w₄ = on_kernel (teardown_return_route h fwmark table) w₃ in
      record w₄ {
        devices = Wireguard.destroy id w₄.devices;
        instances = Xray.stop id w₄.instances;
        running = remove id w₄.running;
        tracked = remove id w₄.tracked;
      }

  tun_of : ℕ → WgInterface → Text
  tun_of id iface = if is_empty iface.tun_name then codes "tun-wg" ++ itoa id else iface.tun_name

  subnet_of : Env → WgInterface → Text
  subnet_of env iface = elim (client_subnet env iface.wg_address) [ err e ↦ [] | ok s ↦ s ]

  pub teardown_runtime : Env → ℕ → WgInterface → World h.K → World h.K
  unfolding tun_of subnet_of
  teardown_runtime env id iface w =
      let r = compute_runtime id in
      stop_internal id (tun_of id iface) r.fwmark r.table (subnet_of env iface) w

  -- The row of a tunnel that has been stopped.
  stopped_row : WgInterface → WgInterface
  stopped_row i = record i { status = WgStatus.stopped; error_message = []; uptime_started = none }

  -- The errors of the two updates are only logged.
  record_stop : Env → ℕ → WgInterface → World h.K → World h.K
  unfolding stopped_row
  record_stop env id iface w = log (stopped id) (record w {
    rows =
        update_status env.status_fault id WgStatus.stopped []
          (update env.update_fault (stopped_row iface) w.rows).1;
  })

  pub stop : Env → ℕ → World h.K → Option GoError × World h.K
  unfolding record_stop
  stop env id w = elim (get_by_id env.get_fault id w.rows) [
    | err e ↦ (some e, w)
    | ok (iface, key) ↦ (none, record_stop env id iface (teardown_runtime env id iface w))
  ]

  shutdown_each : Env → List ℕ → World h.K → World h.K
  shutdown_each env [] w = w
  shutdown_each env (id ∷ ids) w = shutdown_each env ids (elim (get_by_id env.get_fault id w.rows) [
    | err e ↦ w
    | ok (iface, key) ↦ teardown_runtime env id iface w
  ])

  -- Drain empties the running set first; a tunnel whose row cannot be read is passed over.
  pub shutdown_all : Env → World h.K → World h.K
  unfolding shutdown_each
  shutdown_all env w = shutdown_each env w.running (record w { running = [] })
