-- ===== src/Subscription/Bindings.antt =====
-- The rows of tunnel_nodes after a refresh, read as bindings of interfaces to links.
use xray2wg.Base.{
  ℕ, suc, ◌<◌, true, false, Option, none, some, List, [], ◌∷◌, ◌++◌, nat_eq, text_eq, ◌==◌,
  if◌then◌else◌, All, All-append, keep_if, is_some, trim_space, trim_space-trim_space, ◌≡◌, refl,
  arith, Bool-cases, Option-cases, nat_beq_iff, inl, inr, ◌∙◌, sym, ap,
}
use xray2wg.Domain.{VlessNode}
use xray2wg.Tunnel.Repo.{Rows}
use xray2wg.Subscription.State.{State, TunnelNodeBinding, TunnelNode}
use xray2wg.Subscription.Repo.{find_node, first_by_uri, is_node_of, junction_row, tunnel_bindings}
use xray2wg.Subscription.Steps.{numbered, with_nodes, restored, new_row}
use xray2wg.Subscription.Sound.{
  IsSound, JunctionKnown, Below, others, other_rows, find_node-others, find_node-append,
  others-Below,
}
use xray2wg.Subscription.Exchange.{exchanged}
use xray2wg.Subscription.Fresh.{
  append_assoc, append_nil, with_nodes_append, stored_rows, offers, first_by_uri-offers, IsLinked,
  IsLinked-with_nodes,
}

-- A node that is not of the subscription is found as before.
pub find_node-exchanged :
    (sub id k : ℕ) (ns nodes : List VlessNode)
    → is_node_of sub nodes id ≡ false
    → is_some (find_node id nodes) ≡ true
    → find_node id (with_nodes k ns (others sub nodes)) ≡ find_node id nodes
find_node-exchanged sub id k ns nodes h f =
    let same = find_node-others sub id nodes h f in
    rw (with_nodes_append k ns (others sub nodes))
      (find_node-append id (others sub nodes) (stored_rows k ns) (ap is_some same ∙ f) ∙ same)

tunnel_bindings-append :
    (j : ℕ) (nodes : List VlessNode) (xs ys : List TunnelNode)
    → tunnel_bindings j nodes (xs ++ ys) ≡ tunnel_bindings j nodes xs ++ tunnel_bindings j nodes ys
unfolding tunnel_bindings
tunnel_bindings-append j nodes [] ys = refl
tunnel_bindings-append j nodes (x ∷ xs) ys =
    ap (λ l. junction_row j x (find_node x.node_id nodes) ++ l)
      (tunnel_bindings-append j nodes xs ys)
    ∙ sym (
        append_assoc (junction_row j x (find_node x.node_id nodes)) (tunnel_bindings j nodes xs)
          (tunnel_bindings j nodes ys))

other_rows-tunnel_bindings :
    (sub j k : ℕ) (ns nodes : List VlessNode) (rows : Rows) (ts : List TunnelNode)
    → JunctionKnown nodes rows ts
    → tunnel_bindings j (with_nodes k ns (others sub nodes)) (other_rows sub nodes ts)
      ≡ (if sub == j then [] else tunnel_bindings j nodes ts)
unfolding tunnel_bindings is_node_of
other_rows-tunnel_bindings sub j k ns nodes rows [] h = ground arith
other_rows-tunnel_bindings sub j k ns nodes rows (t ∷ ts) h = ground (
  arith,
  find_node-exchanged sub t.node_id k ns nodes,
  other_rows-tunnel_bindings sub j k ns nodes rows ts h.1,
  Option-cases (find_node t.node_id nodes),
)

-- The rows that bindings come back as.
unfoldable restored_rows : List VlessNode → ℕ → List TunnelNodeBinding → List TunnelNode
restored_rows fresh k [] = []
restored_rows fresh k (b ∷ bs) =
    let node = first_by_uri (trim_space b.raw_uri) fresh in
    let rest = restored_rows fresh k bs in
    let more = restored_rows fresh (suc k) bs in if node == 0 then rest else new_row k b node ∷ more

restored_append :
    (fresh : List VlessNode) (k : ℕ) (bs : List TunnelNodeBinding) (rows : List TunnelNode)
    → (restored fresh k bs rows).1 ≡ rows ++ restored_rows fresh k bs
unfolding restored restored_rows
restored_append fresh k [] rows = sym (append_nil rows)
restored_append fresh k (b ∷ bs) rows =
    let node = first_by_uri (trim_space b.raw_uri) fresh in
    elim (Bool-cases (node == 0)) [
      | inl z ↦ rw (restored, restored_rows, z) (restored_append fresh k bs rows)
      | inr z ↦
          rw (restored, restored_rows, z)
            (restored_append fresh (suc k) bs (rows ++ (new_row k b node ∷ []))
              ∙ append_assoc rows (new_row k b node ∷ []) (restored_rows fresh (suc k) bs))
    ]

-- A snapshot's links have no spaces around them.
abbrev IsTrimmed : TunnelNodeBinding → Type 0
IsTrimmed b = trim_space b.raw_uri ≡ b.raw_uri

junction_row-linked :
    (sub j : ℕ) (t : TunnelNode) (b : TunnelNodeBinding) (o : Option VlessNode)
    → IsLinked b.raw_uri sub o
    → t.interface_id ≡ b.interface_id
    → t.position ≡ b.position
    → junction_row j t o ≡ (if sub == j then b ∷ [] else [])
junction_row-linked sub j t b none h i p = elim h [ ]
junction_row-linked sub j t b (some n) h i p =
    ground (arith, Bool-cases (n.subscription_id == j), Bool-cases (sub == j))

restored_rows-tunnel_bindings :
    (sub j k m : ℕ) (ns old : List VlessNode) (bs : List TunnelNodeBinding)
    → 0 < k
    → Below k old
    → All (λ n. n.subscription_id ≡ sub) ns
    → All IsTrimmed bs
    → tunnel_bindings j (with_nodes k ns old) (restored_rows (numbered k ns) m bs)
      ≡ (if sub == j then keep_if (λ b. offers b.raw_uri ns) bs else [])
unfolding restored_rows tunnel_bindings
restored_rows-tunnel_bindings sub j k m ns old [] pos below of_sub trimmed = ground arith
restored_rows-tunnel_bindings sub j k m ns old (b ∷ bs) pos below of_sub trimmed =
    let node = first_by_uri b.raw_uri (numbered k ns) in
    let given = first_by_uri-offers b.raw_uri k ns pos in
    rw (trimmed.0) (elim (Bool-cases (node == 0)) [
      | inl z ↦ ground (
        arith,
        z,
        given,
        restored_rows-tunnel_bindings sub j k m ns old bs pos below of_sub trimmed.1,
      )
      | inr z ↦ ground (
        arith,
        z,
        given,
        restored_rows-tunnel_bindings sub j k (suc m) ns old bs pos below of_sub trimmed.1,
        junction_row-linked sub j (new_row m b node) b (find_node node (with_nodes k ns old))
            (IsLinked-with_nodes b.raw_uri k sub ns old below of_sub z) refl refl,
      )
    ])

junction_row-IsTrimmed :
    (sub : ℕ) (t : TunnelNode) (o : Option VlessNode) → All IsTrimmed (junction_row sub t o)
junction_row-IsTrimmed sub t none = tt
junction_row-IsTrimmed sub t (some n) =
    ground (arith, trim_space-trim_space n.raw_uri, Bool-cases (n.subscription_id == sub))

tunnel_bindings-IsTrimmed :
    (sub : ℕ) (nodes : List VlessNode) (ts : List TunnelNode)
    → All IsTrimmed (tunnel_bindings sub nodes ts)
unfolding tunnel_bindings
tunnel_bindings-IsTrimmed sub nodes [] = tt
tunnel_bindings-IsTrimmed sub nodes (t ∷ ts) =
    All-append IsTrimmed (junction_row sub t (find_node t.node_id nodes))
      (tunnel_bindings sub nodes ts) (junction_row-IsTrimmed sub t (find_node t.node_id nodes))
      (tunnel_bindings-IsTrimmed sub nodes ts)

none_offered : (bs : List TunnelNodeBinding) → keep_if (λ b. offers b.raw_uri []) bs ≡ []
unfolding offers
none_offered [] = refl
none_offered (b ∷ bs) = ground (arith, none_offered bs)

joined :
    {A : Type 0} (i j : ℕ) (xs ys : List A) (keep : List A → List A)
    → (i ≡ j → ys ≡ xs)
    → (if i == j then [] else xs) ++ (if i == j then keep ys else [])
      ≡ (if i == j then keep xs else xs)
joined i j xs ys keep same = elim (Bool-cases (i == j)) [
  | inl z ↦ rw (z) (ap keep (same ((nat_beq_iff i j).0 z)))
  | inr z ↦ rw (z) (append_nil xs)
]

-- The bindings of the refreshed subscription whose links are offered stay, in their order; those of
-- the others stay all.
pub exchanged-tunnel_bindings :
    (sub j : ℕ) (ns : List VlessNode) (s : State)
    → IsSound s
    → All (λ n. n.subscription_id ≡ sub) ns
    → tunnel_bindings j (exchanged sub ns s).nodes (exchanged sub ns s).junction ≡ (
        if sub == j
        then keep_if (λ b. offers b.raw_uri ns) (tunnel_bindings j s.nodes s.junction)
        else tunnel_bindings j s.nodes s.junction)
unfolding with_nodes
exchanged-tunnel_bindings sub j [] s sound of_sub =
    rw (none_offered (tunnel_bindings j s.nodes s.junction))
      (other_rows-tunnel_bindings sub j s.next_node [] s.nodes s.interfaces s.junction sound.4)
exchanged-tunnel_bindings sub j (n ∷ ns) s sound of_sub =
    let k = s.next_node in
    let bs = tunnel_bindings sub s.nodes s.junction in
    let nodes = with_nodes k (n ∷ ns) (others sub s.nodes) in
    let kept = other_rows sub s.nodes s.junction in
    let back = restored_rows (numbered k (n ∷ ns)) s.next_junction bs in
    let parts : tunnel_bindings j nodes (kept ++ back)
        ≡ tunnel_bindings j nodes kept ++ tunnel_bindings j nodes back =
      tunnel_bindings-append j nodes kept back in
    let old = other_rows-tunnel_bindings sub j k (n ∷ ns) s.nodes s.interfaces s.junction sound.4 in
    let new =
      restored_rows-tunnel_bindings sub j k s.next_junction (n ∷ ns) (others sub s.nodes) bs sound.0
        (others-Below k sub s.nodes sound.1) of_sub
        (tunnel_bindings-IsTrimmed sub s.nodes s.junction) in
    rw (restored_append (numbered k (n ∷ ns)) s.next_junction bs kept, parts, old, new)
      (joined sub j (tunnel_bindings j s.nodes s.junction) bs
        (keep_if λ b. offers b.raw_uri (n ∷ ns))
        λ e. ap (λ i. tunnel_bindings i s.nodes s.junction) e)
