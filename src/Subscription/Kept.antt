-- ===== src/Subscription/Kept.antt =====
-- Each step of a refresh keeps the promises of the tables.
use xray2wg.Base.{
  ℕ, suc, true, false, Option, none, some, List, [], ◌∷◌, Text, nat_eq, ◌==◌, All, All-append,
  is_some, trim_space, lookup, ◌≡◌, refl, arith, Bool-cases, inl, inr, ◌∙◌,
}
use xray2wg.Domain.{VlessNode}
use xray2wg.Tunnel.Repo.{Rows}
use xray2wg.Subscription.State.{State, ActiveNodeBinding, TunnelNodeBinding, TunnelNode}
use xray2wg.Subscription.Repo.{
  find_node, first_by_uri, is_node_of, clear_active, junction_row, tunnel_bindings,
}
use xray2wg.Subscription.Steps.{
  with_nodes, count_up, remap_rows, remapped, restored, new_row, Restorable,
}
use xray2wg.Subscription.Sound.{
  IsSound, JunctionKnown, others, other_rows, others-Below, clear_active-Distinct,
  clear_active-RowsKnown, other_rows-JunctionKnown, RowsKnown-append, JunctionKnown-append,
  set_active-Distinct, set_active-RowsKnown, set_active-JunctionKnown, lookup-set_active,
}
use xray2wg.Subscription.Fresh.{with_nodes_append, with_nodes-Below, count_up_le, stored_rows}

-- What DeleteNodes leaves.
abbrev pub emptied : ℕ → State → State
emptied sub s = record s {
  nodes = others sub s.nodes;
  interfaces = clear_active (is_node_of sub s.nodes) s.interfaces;
  junction = other_rows sub s.nodes s.junction;
}

pub emptied-IsSound : (sub : ℕ) (s : State) → IsSound s → IsSound (emptied sub s)
emptied-IsSound sub s (pos, below, distinct, rows, junction) = (
  pos,
  others-Below s.next_node sub s.nodes below,
  clear_active-Distinct _ s.interfaces distinct,
  clear_active-RowsKnown sub s.nodes s.interfaces rows,
  other_rows-JunctionKnown sub s.nodes _ s.interfaces s.junction junction,
)

-- What InsertNodes leaves.
abbrev pub inserted : List VlessNode → State → State
inserted ns s = record s {
  nodes = with_nodes s.next_node ns s.nodes;
  next_node = count_up s.next_node ns;
}

pub inserted-IsSound : (ns : List VlessNode) (s : State) → IsSound s → IsSound (inserted ns s)
inserted-IsSound ns s (pos, below, distinct, rows, junction) = (
  omega (arith, count_up_le s.next_node ns),
  with_nodes-Below s.next_node ns s.nodes below,
  distinct,
  rw (with_nodes_append s.next_node ns s.nodes)
      (RowsKnown-append s.nodes (stored_rows s.next_node ns) s.interfaces rows),
  rw (with_nodes_append s.next_node ns s.nodes)
      (JunctionKnown-append s.nodes (stored_rows s.next_node ns) s.interfaces s.junction junction),
)

-- The nodes that a map of links leads to.
abbrev pub LeadsTo : List VlessNode → List VlessNode → Type 0
LeadsTo fresh nodes =
    (uri : Text)
    → (first_by_uri uri fresh == 0) ≡ false
    → is_some (find_node (first_by_uri uri fresh) nodes) ≡ true

pub remap_rows-IsSound :
    (sub : ℕ) (fresh : List VlessNode) (b : ActiveNodeBinding) (rows : Rows) (s : State)
    → LeadsTo fresh s.nodes
    → IsSound (record s { interfaces = rows })
    → IsSound (record s { interfaces = remap_rows sub fresh b rows })
unfolding remap_rows
remap_rows-IsSound sub fresh b rows s found (pos, below, distinct, known, junction) =
    let node = first_by_uri (trim_space b.raw_uri) fresh in
    elim (Bool-cases (node == 0)) [
      | inl z ↦ rw (z) (pos, below, distinct, known, junction)
      | inr z ↦ rw (z) (
        pos,
        below,
        set_active-Distinct b.interface_id sub node rows distinct,
        set_active-RowsKnown b.interface_id sub node s.nodes rows (found (trim_space b.raw_uri) z)
            known,
        set_active-JunctionKnown b.interface_id sub node s.nodes rows s.junction junction,
      )
    ]

abbrev pub HasInterface : Rows → TunnelNodeBinding → Type 0
HasInterface rows b = is_some (lookup b.interface_id rows) ≡ true

junction_row-HasInterface :
    (sub : ℕ) (rows : Rows) (t : TunnelNode) (o : Option VlessNode)
    → is_some (lookup t.interface_id rows) ≡ true
    → All (HasInterface rows) (junction_row sub t o)
junction_row-HasInterface sub rows t none h = tt
junction_row-HasInterface sub rows t (some n) h =
    ground (arith, Bool-cases (n.subscription_id == sub))

pub tunnel_bindings-HasInterface :
    (sub : ℕ) (nodes : List VlessNode) (rows : Rows) (ts : List TunnelNode)
    → JunctionKnown nodes rows ts
    → All (HasInterface rows) (tunnel_bindings sub nodes ts)
unfolding tunnel_bindings
tunnel_bindings-HasInterface sub nodes rows [] h = tt
tunnel_bindings-HasInterface sub nodes rows (t ∷ ts) h =
    All-append (HasInterface rows) (junction_row sub t (find_node t.node_id nodes))
      (tunnel_bindings sub nodes ts)
      (junction_row-HasInterface sub rows t (find_node t.node_id nodes) h.0.1)
      (tunnel_bindings-HasInterface sub nodes rows ts h.1)

remap_rows-lookup :
    (sub : ℕ) (fresh : List VlessNode) (b : ActiveNodeBinding) (i : ℕ) (rows : Rows)
    → is_some (lookup i (remap_rows sub fresh b rows)) ≡ is_some (lookup i rows)
unfolding remap_rows
remap_rows-lookup sub fresh b i rows =
    ground (
      arith,
      lookup-set_active b.interface_id sub (first_by_uri (trim_space b.raw_uri) fresh) i rows,
    )

pub remapped-lookup :
    (sub : ℕ) (fresh : List VlessNode) (bs : List ActiveNodeBinding) (i : ℕ) (rows : Rows)
    → is_some (lookup i (remapped sub fresh bs rows)) ≡ is_some (lookup i rows)
unfolding remapped
remapped-lookup sub fresh [] i rows = refl
remapped-lookup sub fresh (b ∷ bs) i rows =
    remapped-lookup sub fresh bs i (remap_rows sub fresh b rows)
    ∙ remap_rows-lookup sub fresh b i rows

-- Bindings whose interfaces are there can be restored, on rows with the same ids.
pub All-Restorable :
    (fresh nodes : List VlessNode) (old rows : Rows) (bs : List TunnelNodeBinding)
    → LeadsTo fresh nodes
    → ((i : ℕ) → is_some (lookup i rows) ≡ is_some (lookup i old))
    → All (HasInterface old) bs
    → All (Restorable fresh nodes rows) bs
All-Restorable fresh nodes old rows [] found same h = tt
All-Restorable fresh nodes old rows (b ∷ bs) found same h = (
  (found (trim_space b.raw_uri), same b.interface_id ∙ h.0),
  All-Restorable fresh nodes old rows bs found same h.1,
)

pub restored-JunctionKnown :
    (fresh nodes : List VlessNode) (rows : Rows) (k : ℕ) (bs : List TunnelNodeBinding)
    (ts : List TunnelNode)
    → All (Restorable fresh nodes rows) bs
    → JunctionKnown nodes rows ts
    → JunctionKnown nodes rows (restored fresh k bs ts).1
unfolding restored
restored-JunctionKnown fresh nodes rows k [] ts r h = h
restored-JunctionKnown fresh nodes rows k (b ∷ bs) ts r h =
    let node = first_by_uri (trim_space b.raw_uri) fresh in
    elim (Bool-cases (node == 0)) [
      | inl z ↦ rw (restored, z) (restored-JunctionKnown fresh nodes rows k bs ts r.1 h)
      | inr z ↦
          rw (restored, z)
            (restored-JunctionKnown fresh nodes rows (suc k) bs _ r.1
              (All-append _ ts (new_row k b node ∷ []) h ((r.0.0 z, r.0.1), tt)))
    ]
