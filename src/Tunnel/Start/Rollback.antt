-- ===== src/Tunnel/Start/Rollback.antt =====
-- Every step of Start that fails takes back what the steps before it have set up.
use xray2wg.Base.{ℕ, Bool, true, false, some, ◌≡◌, arith, contains-add, ◌==◌, nat_eq, if◌then◌else◌}
use xray2wg.Domain.Errors.{GoError, ok}
use xray2wg.Netconf.Kernel.{Kernel}
use xray2wg.Wireguard
use xray2wg.Wireguard.{is_some-destroy, is_some-create}
use xray2wg.Xray
use xray2wg.Xray.{is_some-stop, is_some-start}
use xray2wg.Tunnel.Repo.{update}
use xray2wg.Tunnel.World.{World, Env, compute_runtime}
use xray2wg.Tunnel.Flags.{Flags, Ends, Ends-step, Ends-result}
use xray2wg.Tunnel.Start.{
  Plan, abort, undo_wg, undo_route, undo_xray, undo_tproxy, undo_forward, mark_running, running_row,
  finish, start_nat, start_forward, start_tproxy, start_xray, start_route, start_tun, start_wg,
  new_instance,
}
use xray2wg.Tunnel.Stop.Teardown.{stop_internal-Flags}

module _ (h : Kernel) (env : Env) (id : ℕ) (p : Plan) (j : ℕ) (b : Bool)
    (fresh : (if id == j then b else false) ≡ false) where
  abbrev up : Bool
  up = if id == j then true else b

  finish-Ends : (w : World h.K) → Flags j up up b w → Ends j b up (finish h env id p w)
  unfolding finish mark_running Ends
  finish-Ends w f =
      let rows = (update env.update_fault (running_row h env id p) w.rows).1 in
      let r = compute_runtime id in
      ground (
        arith,
        contains-add id j w.running,
        contains-add id j w.tracked,
        stop_internal-Flags h id j r.tun r.fwmark r.table p.subnet up up b
            (record w { rows = rows }),
      )

  abort_nat-Ends :
      (m : GoError) (w : World h.K)
      → Flags j up up b w
      → Ends j b up (abort h env id m (undo_forward h env id w))
  unfolding abort undo_forward Ends
  abort_nat-Ends m w f =
      ground (arith, is_some-destroy id j w.devices, is_some-stop id j w.instances)

  abort_forward-Ends :
      (m : GoError) (w : World h.K)
      → Flags j up up b w
      → Ends j b up (abort h env id m (undo_tproxy h env id w))
  unfolding abort undo_tproxy Ends
  abort_forward-Ends m w f =
      ground (arith, is_some-destroy id j w.devices, is_some-stop id j w.instances)

  abort_tproxy-Ends :
      (m : GoError) (w : World h.K)
      → Flags j up up b w
      → Ends j b up (abort h env id m (undo_xray h env id w))
  unfolding abort undo_xray Ends
  abort_tproxy-Ends m w f =
      ground (arith, is_some-destroy id j w.devices, is_some-stop id j w.instances)

  abort_xray-Ends :
      (m : GoError) (w : World h.K)
      → Flags j up b b w
      → Ends j b up (abort h env id m (undo_route h env id w))
  unfolding abort undo_route Ends
  abort_xray-Ends m w f = ground (arith, is_some-destroy id j w.devices)

  abort_route-Ends :
      (m : GoError) (w : World h.K)
      → Flags j up b b w
      → Ends j b up (abort h env id m (undo_wg h env id w))
  unfolding abort undo_wg Ends
  abort_route-Ends m w f = ground (arith, is_some-destroy id j w.devices)

  start_nat-Ends : (w : World h.K) → Flags j up up b w → Ends j b up (start_nat h env id p w)
  unfolding start_nat
  start_nat-Ends w f = Ends-step j b up _ _ _ (λ m. abort_nat-Ends m _ f) (finish-Ends _ f)

  start_forward-Ends :
      (w : World h.K) → Flags j up up b w → Ends j b up (start_forward h env id p w)
  unfolding start_forward
  start_forward-Ends w f =
      Ends-step j b up _ _ _ (λ m. abort_forward-Ends m _ f) (start_nat-Ends _ f)

  start_tproxy-Ends : (w : World h.K) → Flags j up up b w → Ends j b up (start_tproxy h env id p w)
  unfolding start_tproxy
  start_tproxy-Ends w f =
      Ends-step j b up _ _ _ (λ m. abort_tproxy-Ends m _ f) (start_forward-Ends _ f)

  with_instances :
      (i : Xray.Instance) (w : World h.K) (is : Xray.Instances)
      → Flags j up b b w
      → Xray.start env.xray_fault id i w.instances ≡ ok is
      → Flags j up up b (record w { instances = is })
  with_instances i w is f e = ground (arith, is_some-start env.xray_fault id i w.instances is j e)

  start_xray-Ends : (w : World h.K) → Flags j up b b w → Ends j b up (start_xray h env id p w)
  unfolding start_xray
  start_xray-Ends w f =
      Ends-result j b up (Xray.start env.xray_fault id (new_instance h env id p) w.instances) _ _
        (λ m. abort_xray-Ends m w f)
        (λ is e. start_tproxy-Ends _ (with_instances (new_instance h env id p) w is f e))

  start_route-Ends : (w : World h.K) → Flags j up b b w → Ends j b up (start_route h env id p w)
  unfolding start_route
  start_route-Ends w f = Ends-step j b up _ _ _ (λ m. abort_route-Ends m _ f) (start_xray-Ends _ f)

  start_tun-Ends : (w : World h.K) → Flags j up b b w → Ends j b up (start_tun h env id p w)
  unfolding start_tun
  start_tun-Ends w f = Ends-step j b up _ _ _ (λ m. abort_route-Ends m _ f) (start_route-Ends _ f)

  with_devices :
      (w : World h.K) (ds : Wireguard.Devices)
      → Flags j b b b w
      → Wireguard.create env.parse_key env.wg id p.iface.listen_port p.priv p.peers
          (some env.psk)
          (compute_runtime id).tun
          w.devices
        ≡ ok ds
      → Flags j up b b (record w { devices = ds })
  with_devices w ds f e = ground (
    arith,
    is_some-create env.parse_key env.wg id p.iface.listen_port p.priv p.peers (some env.psk)
        (compute_runtime id).tun w.devices ds j e,
  )

  pub start_wg-Ends : (w : World h.K) → Flags j b b b w → Ends j b up (start_wg h env id p w)
  unfolding start_wg abort Ends
  start_wg-Ends w f =
      Ends-result j b up _ _ _ (λ m. f) (λ ds e. start_tun-Ends _ (with_devices w ds f e))
