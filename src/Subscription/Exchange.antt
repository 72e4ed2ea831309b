-- ===== src/Subscription/Exchange.antt =====
-- The exchange of a subscription's nodes in FetchAndUpdate of backend/internal/service/subscription.go:
-- what it leaves when the database refuses nothing, and that it leaves this or a sound state.
use xray2wg.Base.{ℕ, suc, Option, List, [], ◌∷◌, Text, nat_eq, All, ◌≡◌, refl, ◌∙◌}
use xray2wg.Domain.{VlessNode}
use xray2wg.Tunnel.Repo.{Rows}
use xray2wg.Subscription.State.{
  State, ActiveNodeBinding, TunnelNodeBinding, Op, statement, ◌>>=◌, ◌>>◌,
}
use xray2wg.Subscription.Repo.{
  active_bindings, tunnel_bindings, snapshot_active_nodes, snapshot_tunnel_nodes, delete_nodes,
  forget_active, forget_junction, forget_nodes,
}
use xray2wg.Subscription.Nodes.{
  insert_nodes, insert_each, remap_active_nodes, restore_tunnel_nodes, restore_each,
}
use xray2wg.Subscription.Service.{bring_in, exchange_nodes}
use xray2wg.Subscription.Outcome.{
  Outcome, Blame, at, after-Outcome, statement-Outcome, transaction-Outcome,
}
use xray2wg.Subscription.Steps.{
  numbered, remapped, restored, insert_each-Outcome, remap_each-Outcome, restore_each-Outcome,
  Restorable, remap_rows,
}
use xray2wg.Domain.Errors.{ok}
use xray2wg.Subscription.Sound.{IsSound, lookup-clear_active}
use xray2wg.Subscription.Fresh.{first_by_uri-Known}
use xray2wg.Subscription.Kept.{
  emptied, inserted, emptied-IsSound, inserted-IsSound, LeadsTo, remap_rows-IsSound, HasInterface,
  All-Restorable, remapped-lookup, restored-JunctionKnown, tunnel_bindings-HasInterface,
}

-- What the calls on new nodes leave.
abbrev pub brought :
    ℕ → List VlessNode → List ActiveNodeBinding → List TunnelNodeBinding → State → State
brought sub ns actives tunnels s =
    let fresh = numbered s.next_node ns in
    record (inserted ns s) {
      interfaces = remapped sub fresh actives s.interfaces;
      junction = (restored fresh s.next_junction tunnels s.junction).1;
      next_junction = (restored fresh s.next_junction tunnels s.junction).0;
    }

module _ (F : Type 0) where
  delete_nodes-Outcome :
      {Q : Unit → State → Type 0} {E : State → Type 0} (sub : ℕ) (s : State)
      → Blame F s.faults
      → ((gs : List (Option Text)) → F → E (at s gs))
      → ((gs : List (Option Text)) → Blame F gs → Q tt (at (emptied sub s) gs))
      → Outcome Q E (delete_nodes sub s)
  unfolding delete_nodes
  delete_nodes-Outcome sub s b bad q =
      let next : Unit → Op Unit =
        λ x. statement (forget_junction sub) >> statement (forget_nodes sub) in
      transaction-Outcome F (statement (forget_active sub) >>= next) s bad (
        after-Outcome (statement (forget_active sub) s) next (
          statement-Outcome F (forget_active sub) s b (λ gs. bad gs)
            λ gs c. record {
              holds =
                  after-Outcome
                    (statement (forget_junction sub)
                      (at (record s { interfaces = (emptied sub s).interfaces }) gs))
                    (λ x. statement (forget_nodes sub))
                    (statement-Outcome F (forget_junction sub) _ c (λ hs. bad hs)
                      λ hs d. record {
                        holds =
                            statement-Outcome F (forget_nodes sub)
                              (record (emptied sub s) { nodes = s.nodes; faults = hs }) d
                              (λ is. bad is) λ is e. record { holds = (e, λ js f. q js f) };
                      });
            }))

  pub insert_nodes-Outcome :
      {Q : List VlessNode → State → Type 0} {E : State → Type 0} (ns : List VlessNode) (s : State)
      → Blame F s.faults
      → ((gs : List (Option Text)) → F → E (at s gs))
      → ((gs : List (Option Text))
          → Blame F gs
          → Q (numbered s.next_node ns) (at (inserted ns s) gs))
      → Outcome Q E (insert_nodes ns s)
  unfolding insert_nodes
  insert_nodes-Outcome ns s b bad q =
      transaction-Outcome F (insert_each ns) s bad
        (insert_each-Outcome F ns s b (λ t. bad t.faults) λ gs c. (c, λ hs d. q hs d))

  restore_tunnel_nodes-Outcome :
      {Q : Unit → State → Type 0} {E : State → Type 0} (n : VlessNode) (fresh : List VlessNode)
      (bs : List TunnelNodeBinding) (s : State)
      → All (Restorable (n ∷ fresh) s.nodes s.interfaces) bs
      → Blame F s.faults
      → ((gs : List (Option Text)) → F → E (at s gs))
      → ((gs : List (Option Text))
          → Blame F gs
          → Q tt (record s {
            faults = gs;
            junction = (restored (n ∷ fresh) s.next_junction bs s.junction).1;
            next_junction = (restored (n ∷ fresh) s.next_junction bs s.junction).0;
          }))
      → Outcome Q E (restore_tunnel_nodes bs (n ∷ fresh) s)
  unfolding restore_tunnel_nodes restored
  restore_tunnel_nodes-Outcome n fresh [] s r b bad q = record { holds = q s.faults b }
  restore_tunnel_nodes-Outcome n fresh (x ∷ bs) s r b bad q =
      transaction-Outcome F (restore_each (n ∷ fresh) (x ∷ bs)) s bad (
        restore_each-Outcome F (n ∷ fresh) (x ∷ bs) s r b (λ t. bad t.faults)
          λ gs c. (c, λ hs d. q hs d))

  remap_active_nodes-Outcome :
      (P : Rows → Type 0) {Q : Unit → State → Type 0} {E : State → Type 0} (sub : ℕ) (n : VlessNode)
      (fresh : List VlessNode) (bs : List ActiveNodeBinding) (s : State)
      → P s.interfaces
      → ((b : ActiveNodeBinding) (rows : Rows) → P rows → P (remap_rows sub (n ∷ fresh) b rows))
      → Blame F s.faults
      → ((gs : List (Option Text)) (rows : Rows)
          → P rows
          → F
          → E (record s { faults = gs; interfaces = rows }))
      → ((gs : List (Option Text))
          → Blame F gs
          → P (remapped sub (n ∷ fresh) bs s.interfaces)
          → Q tt (record s { faults = gs; interfaces = remapped sub (n ∷ fresh) bs s.interfaces }))
      → Outcome Q E (remap_active_nodes sub bs (n ∷ fresh) s)
  unfolding remap_active_nodes remapped
  remap_active_nodes-Outcome P sub n fresh [] s p keep b bad q = record { holds = q s.faults b p }
  remap_active_nodes-Outcome P sub n fresh (x ∷ bs) s p keep b bad q =
      remap_each-Outcome F P sub (n ∷ fresh) (x ∷ bs) s p keep b bad q

  bring_in-Outcome :
      {Q : Unit → State → Type 0} {E : State → Type 0} (sub : ℕ) (n : VlessNode)
      (ns : List VlessNode) (actives : List ActiveNodeBinding) (tunnels : List TunnelNodeBinding)
      (s : State)
      → IsSound s
      → All (λ m. m.subscription_id ≡ sub) (n ∷ ns)
      → All (HasInterface s.interfaces) tunnels
      → Blame F s.faults
      → ((t : State) → IsSound t → t.subs ≡ s.subs → F → E t)
      → ((gs : List (Option Text))
          → Blame F gs
          → IsSound (brought sub (n ∷ ns) actives tunnels s)
          → Q tt (at (brought sub (n ∷ ns) actives tunnels s) gs))
      → Outcome Q E (bring_in sub (n ∷ ns) actives tunnels s)
  unfolding bring_in numbered
  bring_in-Outcome sub n ns actives tunnels s sound of_sub has b bad q =
      let k = s.next_node in
      let first = record n { id = k } in
      let fresh = numbered (suc k) ns in
      let leads : LeadsTo (numbered k (n ∷ ns)) (inserted (n ∷ ns) s).nodes =
        λ uri. first_by_uri-Known uri k sub (n ∷ ns) s.nodes sound.1 of_sub in
      after-Outcome (insert_nodes (n ∷ ns) s)
        (λ fresh. remap_active_nodes sub actives fresh >> restore_tunnel_nodes tunnels fresh)
        (insert_nodes-Outcome (n ∷ ns) s b (λ gs. bad (at s gs) sound refl)
          λ gs c.
            after-Outcome
              (remap_active_nodes sub actives (first ∷ fresh) (at (inserted (n ∷ ns) s) gs))
              (λ x. restore_tunnel_nodes tunnels (first ∷ fresh))
              (remap_active_nodes-Outcome
                (λ rows. IsSound (record (inserted (n ∷ ns) s) { interfaces = rows })) sub first
                fresh actives (at (inserted (n ∷ ns) s) gs) (inserted-IsSound (n ∷ ns) s sound)
                (λ x rows.
                  remap_rows-IsSound sub (first ∷ fresh) x rows (inserted (n ∷ ns) s) leads)
                c (λ hs rows p. bad _ p refl)
                λ hs d p.
                  (let can : All
                        (Restorable (first ∷ fresh) (inserted (n ∷ ns) s).nodes
                          (remapped sub (first ∷ fresh) actives s.interfaces))
                        tunnels =
                      All-Restorable (first ∷ fresh) _ s.interfaces _ tunnels leads
                        (λ i. remapped-lookup sub (first ∷ fresh) actives i s.interfaces) has in
                    restore_tunnel_nodes-Outcome first fresh tunnels _ can d (λ is. bad _ p refl)
                      λ is e. q is e (
                        p.0,
                        p.1,
                        p.2,
                        p.3,
                        restored-JunctionKnown (first ∷ fresh) _ _ s.next_junction tunnels
                            s.junction can p.4,
                      ))))

-- What the exchange leaves.
abbrev pub exchanged : ℕ → List VlessNode → State → State
exchanged sub [] s = emptied sub s
exchanged sub (n ∷ ns) s =
    brought sub (n ∷ ns) (active_bindings sub s.nodes s.interfaces)
      (tunnel_bindings sub s.nodes s.junction) (emptied sub s)

module _ (F : Type 0) {Q : Unit → State → Type 0} {E : State → Type 0} where
  bring_in_all-Outcome :
      (sub : ℕ) (ns : List VlessNode) (s : State)
      → IsSound s
      → All (λ m. m.subscription_id ≡ sub) ns
      → ((t : State) → IsSound t → t.subs ≡ s.subs → F → E t)
      → ((gs : List (Option Text))
          → Blame F gs
          → IsSound (exchanged sub ns s)
          → Q tt (at (exchanged sub ns s) gs))
      → (gs : List (Option Text)) → Blame F gs
      → Outcome Q E (
          bring_in sub ns
            (active_bindings sub s.nodes s.interfaces)
            (tunnel_bindings sub s.nodes s.junction)
            (at (emptied sub s) gs))
  unfolding bring_in
  bring_in_all-Outcome sub [] s sound of_sub bad q gs b = record {
    holds = q gs b (emptied-IsSound sub s sound);
  }
  bring_in_all-Outcome sub (n ∷ ns) s sound of_sub bad q gs b =
      bring_in-Outcome F sub n ns (active_bindings sub s.nodes s.interfaces)
        (tunnel_bindings sub s.nodes s.junction) (at (emptied sub s) gs)
        (emptied-IsSound sub s sound) of_sub
        (has_still (tunnel_bindings sub s.nodes s.junction)
          (tunnel_bindings-HasInterface sub s.nodes s.interfaces s.junction sound.4))
        b bad q
    where
      has_still :
          (bs : List TunnelNodeBinding)
          → All (HasInterface s.interfaces) bs
          → All (HasInterface (emptied sub s).interfaces) bs
      has_still [] h = tt
      has_still (x ∷ bs) h =
          (lookup-clear_active _ x.interface_id s.interfaces ∙ h.0, has_still bs h.1)

  pub exchange_nodes-Outcome :
      (sub : ℕ) (ns : List VlessNode) (s : State)
      → IsSound s
      → All (λ m. m.subscription_id ≡ sub) ns
      → Blame F s.faults
      → ((t : State) → IsSound t → t.subs ≡ s.subs → F → E t)
      → ((gs : List (Option Text))
          → Blame F gs
          → IsSound (exchanged sub ns s)
          → Q tt (at (exchanged sub ns s) gs))
      → Outcome Q E (exchange_nodes sub ns s)
  unfolding exchange_nodes snapshot_active_nodes snapshot_tunnel_nodes
  exchange_nodes-Outcome sub ns s sound of_sub b bad q =
      let actives = active_bindings sub s.nodes s.interfaces in
      let tunnels = tunnel_bindings sub s.nodes s.junction in
      let last : List ActiveNodeBinding → List TunnelNodeBinding → Unit → Op Unit =
        λ xs ys z. bring_in sub ns xs ys in
      let third : List ActiveNodeBinding → List TunnelNodeBinding → Op Unit =
        λ xs ys. delete_nodes sub >>= last xs ys in
      let second : List ActiveNodeBinding → Op Unit =
        λ xs. snapshot_tunnel_nodes sub >>= third xs in
      let first : Op (List ActiveNodeBinding) =
        λ t. (ok (active_bindings sub t.nodes t.interfaces), t) in
      let next : Op (List TunnelNodeBinding) =
        λ t. (ok (tunnel_bindings sub t.nodes t.junction), t) in
      after-Outcome (statement first s) second (
        statement-Outcome F first s b (λ gs. bad (at s gs) sound refl)
          λ gs c. record {
            holds = after-Outcome (statement next (at s gs)) (third actives) (
                statement-Outcome F next (at s gs) c (λ hs. bad (at s hs) sound refl)
                  λ hs d. record {
                    holds = after-Outcome (delete_nodes sub (at s hs)) (last actives tunnels) (
                        delete_nodes-Outcome F sub (at s hs) d (λ is. bad (at s is) sound refl)
                          (bring_in_all-Outcome sub ns s sound of_sub bad q));
                  });
          })
