-- ===== src/Tunnel/Service/History.antt =====
-- Any history of calls on the tunnel service, with any answers of the outside.
use xray2wg.Base.{ℕ, Option, none, some, List, [], ◌∷◌, nat_eq, Text}
use xray2wg.Domain.Errors.{GoError, Result, ok, err}
use xray2wg.Netconf.Kernel.{Kernel}
use xray2wg.Tunnel.World.{World, Env}
use xray2wg.Tunnel.Flags.{IsCoherent}
use xray2wg.Tunnel.Repo.{list_running_ids}
use xray2wg.Tunnel.Service.{
  start, reload_nodes, reload_peers, note_failure, restore_each, restore_running,
}
use xray2wg.Tunnel.Stop.{stop}
use xray2wg.Tunnel.Stop.Teardown.{stop-IsCoherent}
use xray2wg.Tunnel.Service.Coherence.{start-IsCoherent}
use xray2wg.Tunnel.Service.Reload.{reload_nodes-IsCoherent, reload_peers-IsCoherent}

-- A call on the service, with what the outside answers to it.
pub data Call : Type 0 where
  start_call stop_call reload_nodes_call reload_peers_call : Env → ℕ → Call
  restore_call : (ℕ → Env) → Option Text → Call

module _ (h : Kernel) where
  note_failure-IsCoherent :
      (id : ℕ) (r : Option GoError × World h.K) → IsCoherent r.1 → IsCoherent (note_failure h id r)
  unfolding note_failure
  note_failure-IsCoherent id (none, w) c = c
  note_failure-IsCoherent id (some e, w) c = c

  restore_each-IsCoherent :
      (envs : ℕ → Env) (ids : List ℕ) (w : World h.K)
      → IsCoherent w
      → IsCoherent (restore_each h envs ids w)
  unfolding restore_each
  restore_each-IsCoherent envs [] w c = c
  restore_each-IsCoherent envs (id ∷ ids) w c =
      restore_each-IsCoherent envs ids _
        (note_failure-IsCoherent id (start h (envs id) id w) (start-IsCoherent h (envs id) id w c))

  restored :
      (envs : ℕ → Env) (r : Result (List ℕ)) (w : World h.K)
      → IsCoherent w
      → IsCoherent (elim r as (λ _. World h.K) [ err e ↦ w | ok ids ↦ restore_each h envs ids w ])
  restored envs (ok ids) w c = restore_each-IsCoherent envs ids w c
  restored envs (err e) w c = c

  restore_running-IsCoherent :
      (envs : ℕ → Env) (fault : Option Text) (w : World h.K)
      → IsCoherent w
      → IsCoherent (restore_running h envs fault w)
  unfolding restore_running
  restore_running-IsCoherent envs fault w c = restored envs (list_running_ids fault w.rows) w c

  pub apply : Call → World h.K → World h.K
  apply (start_call env id) w = (start h env id w).1
  apply (stop_call env id) w = (stop h env id w).1
  apply (reload_nodes_call env id) w = (reload_nodes h env id w).1
  apply (reload_peers_call env id) w = (reload_peers h env id w).1
  apply (restore_call envs fault) w = restore_running h envs fault w

  pub run : List Call → World h.K → World h.K
  run [] w = w
  run (c ∷ cs) w = run cs (apply c w)

  apply-IsCoherent : (c : Call) (w : World h.K) → IsCoherent w → IsCoherent (apply c w)
  unfolding apply
  apply-IsCoherent (start_call env id) w k = start-IsCoherent h env id w k
  apply-IsCoherent (stop_call env id) w k = stop-IsCoherent h env id w k
  apply-IsCoherent (reload_nodes_call env id) w k = reload_nodes-IsCoherent h env id w k
  apply-IsCoherent (reload_peers_call env id) w k = reload_peers-IsCoherent h env id w k
  apply-IsCoherent (restore_call envs fault) w k = restore_running-IsCoherent envs fault w k

  -- After any history of calls on a coherent state, whichever of their steps fail, each tunnel has a
  -- WireGuard device, an Xray instance and statistics if it is marked as running, and none of these
  -- otherwise.
  pub run-IsCoherent : (cs : List Call) (w : World h.K) → IsCoherent w → IsCoherent (run cs w)
  unfolding run
  run-IsCoherent [] w k = k
  run-IsCoherent (c ∷ cs) w k = run-IsCoherent cs (apply c w) (apply-IsCoherent c w k)
