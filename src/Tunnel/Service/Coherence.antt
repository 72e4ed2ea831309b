-- ===== src/Tunnel/Service/Coherence.antt =====
-- Start, ReloadNodes, ReloadPeers and RestoreRunning keep the tunnels coherent, whatever fails.
use xray2wg.Base.{
  ℕ, Bool, true, false, none, some, List, ◌≡◌, refl, arith, contains, ◌==◌, nat_eq, if◌then◌else◌,
  Bool-cases, inl, inr, Text,
}
use xray2wg.Domain.{WgInterface, VlessNode}
use xray2wg.Domain.Errors.{Result, ok, err}
use xray2wg.Netconf.Kernel.{Kernel}
use xray2wg.Tunnel.World.{World, Env, client_subnet}
use xray2wg.Tunnel.Flags.{
  Flags, Ends, IsCoherent, CoherentAt, Ends-CoherentAt, Ends-mark, Ends-result,
}
use xray2wg.Tunnel.Repo.{get_by_id}
use xray2wg.Tunnel.Nodes.{resolve_nodes}
use xray2wg.Tunnel.Start.Rollback.{start_wg-Ends}
use xray2wg.Tunnel.Service.{start_checked, start_resolved, start}

module _ (h : Kernel) (env : Env) (id : ℕ) (j : ℕ) (b : Bool)
    (fresh : (if id == j then b else false) ≡ false) where
  abbrev up : Bool
  up = if id == j then true else b

  start_checked-Ends :
      (key : Text) (iface : WgInterface) (nodes : List VlessNode) (w : World h.K)
      → Flags j b b b w
      → Ends j b up (start_checked h env id key iface nodes w)
  unfolding start_checked Ends
  start_checked-Ends key iface nodes w f =
      Ends-result j b up (env.decrypt key) _ _ (λ e. f)
        λ priv _.
          Ends-result j b up env.peers _ _ (λ e. f)
            λ peers _.
              Ends-result j b up (client_subnet env iface.wg_address) _ _ (λ e. f)
                λ subnet _. start_wg-Ends h env id _ j b fresh w f

  start_resolved-Ends :
      (key : Text) (r : Result (List VlessNode) × WgInterface × (List (ℕ × (WgInterface × Text))))
      (w : World h.K)
      → Flags j b b b w
      → Ends j b up (start_resolved h env id key r w)
  unfolding start_resolved Ends
  start_resolved-Ends key (err e, iface, rows) w f = f
  start_resolved-Ends key (ok nodes, iface, rows) w f = start_checked-Ends key iface nodes _ f

  start-Ends :
      (w : World h.K)
      → contains id w.running ≡ false
      → Flags j b b b w
      → Ends j b up (start h env id w)
  unfolding start Ends
  start-Ends w off f =
      rw (off, start)
        (Ends-result j b up (get_by_id env.get_fault id w.rows) _ _ (λ e. f)
          λ row _. start_resolved-Ends row.1 (resolve_nodes env row.0 w.rows) w f)

fresh_of :
    {K : Type 0} (id j : ℕ) (w : World K)
    → contains id w.running ≡ false
    → (if id == j then contains j w.running else false) ≡ false
fresh_of id j w off = ground arith

module _ (h : Kernel) (env : Env) (id : ℕ) (w : World h.K) where
  start_running : contains id w.running ≡ true → start h env id w ≡ (none, w)
  unfolding start
  start_running on = rw (on, start)

  start-CoherentAt : (j : ℕ) → IsCoherent w → CoherentAt j (start h env id w).1
  start-CoherentAt j c = elim (Bool-cases (contains id w.running)) [
    | inl on ↦ rw (start_running on) (c j)
    | inr off ↦ Ends-CoherentAt j _ _ _ (
        start-Ends h env id j (contains j w.running) (fresh_of id j w off) w off
          ((c j).0, (c j).1, refl, (c j).2))
  ]

  pub start-IsCoherent : IsCoherent w → IsCoherent (start h env id w).1
  start-IsCoherent c j = start-CoherentAt j c

  -- In a coherent state, a Start that returns no error marks its tunnel as running and one that
  -- returns an error does not; no other mark changes either way.
  pub start_marks :
      IsCoherent w
      → (j : ℕ)
      → contains j (start h env id w).1.running ≡ (elim (start h env id w).0 [
        | none ↦ if id == j then true else contains j w.running
        | some e ↦ contains j w.running
      ])
  start_marks c j = elim (Bool-cases (contains id w.running)) [
    | inl on ↦ rw (start_running on) (ground arith)
    | inr off ↦ Ends-mark j _ _ _ (
        start-Ends h env id j (contains j w.running) (fresh_of id j w off) w off
          ((c j).0, (c j).1, refl, (c j).2))
  ]
