-- ===== src/Tunnel/Service/Reload.antt =====
-- ReloadNodes and ReloadPeers replace the Xray instance and the device's peers of a running tunnel,
-- and leave every tunnel as coherent as it was.
use xray2wg.Base.{
  ℕ, true, Option, none, some, List, [], ◌∷◌, ◌≡◌, refl, arith, contains, nat_eq, Bool-cases, inl,
  inr, Text, map, trim_space,
}
use xray2wg.Domain.{WgInterface, VlessNode}
use xray2wg.Domain.Errors.{GoError, Result, ok, err}
use xray2wg.Netconf.Kernel.{Kernel}
use xray2wg.Wireguard
use xray2wg.Wireguard.{is_some-reload_peers}
use xray2wg.Xray
use xray2wg.Xray.{is_some-start}
use xray2wg.Tunnel.World.{World, Env, compute_runtime, local_gateway, or_round_robin}
use xray2wg.Tunnel.Flags.{IsCoherent, CoherentAt}
use xray2wg.Tunnel.Repo.{get_by_id}
use xray2wg.Tunnel.Nodes.{parse_or_keep, junction_nodes}
use xray2wg.Tunnel.Service.{reload_with, reload_nodes, reload_device, reload_peers}

module _ (h : Kernel) (env : Env) (id : ℕ) (j : ℕ) where
  -- An error, with the world unchanged, or what comes next.
  result_at :
      {A : Type 0} (r : Result A) (w : World h.K) (g : A → Option GoError × World h.K)
      → CoherentAt j w
      → ((a : A) → r ≡ ok a → CoherentAt j (g a).1)
      → CoherentAt j
          (elim r as (λ _. Option GoError × World h.K) [ err e ↦ (some e, w) | ok a ↦ g a ]).1
  result_at (ok a) w g c k = k a refl
  result_at (err e) w g c k = c

  reload_with-CoherentAt :
      (iface : WgInterface) (ns : List VlessNode) (w : World h.K)
      → contains id w.running ≡ true
      → CoherentAt j w
      → CoherentAt j (reload_with h env id iface ns w).1
  unfolding reload_with
  reload_with-CoherentAt iface [] w on c = c
  reload_with-CoherentAt iface (n ∷ ns) w on c =
      let r = compute_runtime id in
      let i : Xray.Instance = record {
        port = r.port;
        fwmark = r.fwmark;
        gateway = local_gateway env iface.wg_address;
        nodes = map (parse_or_keep env) (n ∷ ns);
        strategy = or_round_robin iface.balancing_strategy;
      } in
      result_at (Xray.start env.xray_fault id i w.instances) w
        (λ is. (none, record w { instances = is })) c
        λ is e. ground (arith, is_some-start env.xray_fault id i w.instances is j e)

  reload_nodes-CoherentAt :
      (w : World h.K) → CoherentAt j w → CoherentAt j (reload_nodes h env id w).1
  unfolding reload_nodes
  reload_nodes-CoherentAt w c = elim (Bool-cases (contains id w.running)) [
    | inl on ↦
        rw (on, reload_nodes)
          (result_at (get_by_id env.get_fault id w.rows) w _ c
            λ row _. reload_with-CoherentAt row.0 (junction_nodes env) w on c)
    | inr off ↦ rw (off, reload_nodes) c
  ]

  reload_device-CoherentAt :
      (iface : WgInterface) (key : Text) (w : World h.K)
      → CoherentAt j w
      → CoherentAt j (reload_device h env id iface key w).1
  unfolding reload_device
  reload_device-CoherentAt iface key w c = result_at (env.decrypt key) w _ c λ priv _.
      result_at env.peers w _ c λ peers _.
        result_at
          (Wireguard.reload_peers env.parse_key env.wg id iface.listen_port (trim_space priv) peers
            (some env.psk) w.devices)
          w (λ ds. (none, record w { devices = ds })) c
          λ ds e. ground (
            arith,
            is_some-reload_peers env.parse_key env.wg id iface.listen_port (trim_space priv) peers
                (some env.psk) w.devices ds j e,
          )

  reload_peers-CoherentAt :
      (w : World h.K) → CoherentAt j w → CoherentAt j (reload_peers h env id w).1
  unfolding reload_peers
  reload_peers-CoherentAt w c = elim (Bool-cases (contains id w.running)) [
    | inl on ↦
        rw (on, reload_peers)
          (result_at (get_by_id env.get_fault id w.rows) w _ c
            λ row _. reload_device-CoherentAt row.0 row.1 w c)
    | inr off ↦ rw (off, reload_peers) c
  ]

module _ (h : Kernel) (env : Env) (id : ℕ) (w : World h.K) where
  pub reload_nodes-IsCoherent : IsCoherent w → IsCoherent (reload_nodes h env id w).1
  reload_nodes-IsCoherent c j = reload_nodes-CoherentAt h env id j w (c j)

  pub reload_peers-IsCoherent : IsCoherent w → IsCoherent (reload_peers h env id w).1
  reload_peers-IsCoherent c j = reload_peers-CoherentAt h env id j w (c j)
