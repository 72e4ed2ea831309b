-- ===== src/Subscription/Steps.antt =====
-- What the loops of a refresh leave when the database refuses nothing, as functions on the tables,
-- and that they leave it.
use xray2wg.Base.{
  ℕ, suc, Bool, true, false, Option, List, [], ◌∷◌, ◌++◌, Text, nat_eq, ◌==◌, if◌then◌else◌, All,
  is_some, trim_space, lookup, ◌≡◌, refl,
}
use xray2wg.Domain.{VlessNode}
use xray2wg.Tunnel.Repo.{Rows}
use xray2wg.Domain.Errors.{ok}
use xray2wg.Subscription.State.{
  State, ActiveNodeBinding, TunnelNodeBinding, TunnelNode, return, statement,
}
use xray2wg.Subscription.Repo.{find_node, first_by_uri}
use xray2wg.Subscription.Nodes.{
  stored_row, insert_node, insert_each, set_active, remap_one, remap_each, create_junction,
  restore_one, restore_each,
}
use xray2wg.Subscription.Outcome.{Outcome, Blame, at, after-Outcome, statement-Outcome}

unfoldable pub numbered : ℕ → List VlessNode → List VlessNode
numbered k [] = []
numbered k (n ∷ ns) = record n { id = k } ∷ numbered (suc k) ns

unfoldable pub with_nodes : ℕ → List VlessNode → List VlessNode → List VlessNode
with_nodes k [] old = old
with_nodes k (n ∷ ns) old = with_nodes (suc k) ns (old ++ (stored_row k n ∷ []))

unfoldable pub count_up : ℕ → List VlessNode → ℕ
count_up k [] = k
count_up k (n ∷ ns) = count_up (suc k) ns

unfoldable pub remap_rows : ℕ → List VlessNode → ActiveNodeBinding → Rows → Rows
remap_rows sub fresh b rows =
    let node = first_by_uri (trim_space b.raw_uri) fresh in
    if node == 0 then rows else set_active b.interface_id sub node rows

unfoldable pub remapped : ℕ → List VlessNode → List ActiveNodeBinding → Rows → Rows
remapped sub fresh [] rows = rows
remapped sub fresh (b ∷ bs) rows = remapped sub fresh bs (remap_rows sub fresh b rows)

abbrev pub new_row : ℕ → TunnelNodeBinding → ℕ → TunnelNode
new_row k b node = record {
  id = k;
  interface_id = b.interface_id;
  node_id = node;
  position = b.position;
}

-- The rows of tunnel_nodes that the bindings come back as, from an id on, and the id after them.
unfoldable pub restored :
    List VlessNode → ℕ → List TunnelNodeBinding → List TunnelNode → ℕ × List TunnelNode
restored fresh k [] rows = (k, rows)
restored fresh k (b ∷ bs) rows =
    let node = first_by_uri (trim_space b.raw_uri) fresh in
    restored fresh (if node == 0 then k else suc k) bs
      (if node == 0 then rows else rows ++ (new_row k b node ∷ []))

-- The foreign keys of the row that a binding comes back as.
abbrev pub Restorable : List VlessNode → List VlessNode → Rows → TunnelNodeBinding → Type 0
Restorable fresh nodes rows b =
    let node = first_by_uri (trim_space b.raw_uri) fresh in
    ((node == 0) ≡ false → is_some (find_node node nodes) ≡ true)
    × (is_some (lookup b.interface_id rows) ≡ true)

module _ (F : Type 0) where
  pub insert_each-Outcome :
      (ns : List VlessNode) {Q : List VlessNode → State → Type 0} {E : State → Type 0} (s : State)
      → Blame F s.faults
      → ((t : State) → F → E t)
      → ((gs : List (Option Text))
          → Blame F gs
          → Q (numbered s.next_node ns) (record s {
            faults = gs;
            nodes = with_nodes s.next_node ns s.nodes;
            next_node = count_up s.next_node ns;
          }))
      → Outcome Q E (insert_each ns s)
  unfolding insert_each insert_node numbered with_nodes count_up
  insert_each-Outcome [] s b bad q = record { holds = q s.faults b }
  insert_each-Outcome (n ∷ ns) s b bad q = after-Outcome (insert_node n s) _ (
      statement-Outcome F _ s b (λ gs. bad (at s gs))
        λ gs c. record {
          holds =
              after-Outcome (insert_each ns _) _
                (insert_each-Outcome ns _ c bad λ hs d. record { holds = q hs d });
        })

  remap_one-Outcome :
      (z : Bool) (i sub node : ℕ) {Q : Unit → State → Type 0} {E : State → Type 0} (s : State)
      → Blame F s.faults
      → ((gs : List (Option Text)) → F → E (at s gs))
      → ((gs : List (Option Text))
          → Blame F gs
          → Q tt (record s {
            faults = gs;
            interfaces = if z then s.interfaces else set_active i sub node s.interfaces;
          }))
      → Outcome Q E (
          (if z
              then return tt
              else statement
                  λ t. (ok tt, record t { interfaces = set_active i sub node t.interfaces }))
            s)
  remap_one-Outcome true i sub node s b bad q = record { holds = q s.faults b }
  remap_one-Outcome false i sub node s b bad q =
      statement-Outcome F _ s b bad λ gs c. record { holds = q gs c }

  pub remap_each-Outcome :
      (P : Rows → Type 0) (sub : ℕ) (fresh : List VlessNode) (bs : List ActiveNodeBinding)
      {Q : Unit → State → Type 0} {E : State → Type 0} (s : State)
      → P s.interfaces
      → ((b : ActiveNodeBinding) (rows : Rows) → P rows → P (remap_rows sub fresh b rows))
      → Blame F s.faults
      → ((gs : List (Option Text)) (rows : Rows)
          → P rows
          → F
          → E (record s { faults = gs; interfaces = rows }))
      → ((gs : List (Option Text))
          → Blame F gs
          → P (remapped sub fresh bs s.interfaces)
          → Q tt (record s { faults = gs; interfaces = remapped sub fresh bs s.interfaces }))
      → Outcome Q E (remap_each sub fresh bs s)
  unfolding remap_each remap_one remapped remap_rows
  remap_each-Outcome P sub fresh [] s p keep b bad q = record { holds = q s.faults b p }
  remap_each-Outcome P sub fresh (x ∷ bs) s p keep b bad q =
      after-Outcome (remap_one sub fresh x s) _ (
        remap_one-Outcome _ x.interface_id sub _ s b (λ gs. bad gs s.interfaces p)
          λ gs c. remap_each-Outcome P sub fresh bs _ (keep x s.interfaces p) keep c bad q)

  pub restore_one-Outcome :
      (z : Bool) (x : TunnelNodeBinding) (node : ℕ) {Q : Unit → State → Type 0} {E : State → Type 0}
      (s : State)
      → (z ≡ false → is_some (find_node node s.nodes) ≡ true)
      → is_some (lookup x.interface_id s.interfaces) ≡ true
      → Blame F s.faults
      → ((gs : List (Option Text)) → F → E (at s gs))
      → ((gs : List (Option Text))
          → Blame F gs
          → Q tt (record s {
            faults = gs;
            junction =
                if z then s.junction else s.junction ++ (new_row s.next_junction x node ∷ []);
            next_junction = if z then s.next_junction else suc s.next_junction;
          }))
      → Outcome Q E ((if z then return tt else create_junction x node) s)
  unfolding create_junction
  restore_one-Outcome true x node s hn hi b bad q = record { holds = q s.faults b }
  restore_one-Outcome false x node s hn hi b bad q =
      statement-Outcome F _ s b bad λ gs c. rw (hn refl, hi) (record { holds = q gs c })

  pub restore_each-Outcome :
      (fresh : List VlessNode) (bs : List TunnelNodeBinding) {Q : Unit → State → Type 0}
      {E : State → Type 0} (s : State)
      → All (Restorable fresh s.nodes s.interfaces) bs
      → Blame F s.faults
      → ((t : State) → F → E t)
      → ((gs : List (Option Text))
          → Blame F gs
          → Q tt (record s {
            faults = gs;
            junction = (restored fresh s.next_junction bs s.junction).1;
            next_junction = (restored fresh s.next_junction bs s.junction).0;
          }))
      → Outcome Q E (restore_each fresh bs s)
  unfolding restore_each restore_one restored
  restore_each-Outcome fresh [] s r b bad q = record { holds = q s.faults b }
  restore_each-Outcome fresh (x ∷ bs) s r b bad q = after-Outcome (restore_one fresh x s) _ (
      restore_one-Outcome _ x _ s r.0.0 r.0.1 b (λ gs. bad (at s gs))
        λ gs c. restore_each-Outcome fresh bs _ r.1 c bad q)
