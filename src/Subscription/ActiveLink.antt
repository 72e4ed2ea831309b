-- ===== src/Subscription/ActiveLink.antt =====
-- The active node of an interface after a refresh, read as its link. Start takes it for a tunnel that
-- has no rows in tunnel_nodes.
use xray2wg.Base.{
  ℕ, ◌<◌, true, Option, none, some, List, [], ◌∷◌, Text, nat_eq, text_eq, ◌==◌, ◌&&◌, not,
  if◌then◌else◌, All, trim_space, trim_space-trim_space, ◌≡◌, refl, arith, lookup, Bool-cases,
  Option-cases, inl, inr, sym, ap,
}
use xray2wg.Domain.{WgInterface, VlessNode}
use xray2wg.Tunnel.Repo.{Rows}
use xray2wg.Subscription.State.{State, ActiveNodeBinding}
use xray2wg.Subscription.Repo.{
  find_node, first_by_uri, is_node_of, clear_active, unless, is_nat, active_node_of, active_node,
  active_bindings,
}
use xray2wg.Subscription.Sound.{Known, clear_active-Distinct, others, Below, others-Below, IsSound}
use xray2wg.Subscription.Exchange.{exchanged}
use xray2wg.Subscription.Bindings.{find_node-exchanged}
use xray2wg.Subscription.Fresh.{offers, first_by_uri-offers, IsLinked, IsLinked-with_nodes}
use xray2wg.Subscription.Steps.{numbered, with_nodes, remap_rows, remapped}
use xray2wg.Subscription.Remap.{
  Row, follow, lookup-remapped, binding_row, binding_of-active_bindings, active_bindings-IsOnce,
  lookup-clear_active, KnownRow, lookup-KnownRow, uri_of,
}

-- The link of an interface's active node.
abbrev pub active_link : List VlessNode → Row → Option Text
active_link nodes none = none
active_link nodes (some (w, key)) = uri_of (active_node w nodes)

-- What a refresh with new nodes `ns` makes of the active node of an interface: a node of the
-- subscription is lost, unless the interface is bound to the subscription and the link is offered.
abbrev pub refreshed_uri : ℕ → List VlessNode → WgInterface → Option VlessNode → Option Text
refreshed_uri sub ns w none = none
refreshed_uri sub ns w (some n) =
    if (n.subscription_id == sub)
      && not (is_nat sub w.subscription_id && offers (trim_space n.raw_uri) ns)
    then none
    else some (trim_space n.raw_uri)

linked_uri :
    (uri : Text) (sub : ℕ) (o : Option VlessNode) → IsLinked uri sub o → uri_of o ≡ some uri
linked_uri uri sub none h = elim h [ ]
linked_uri uri sub (some n) h = ap some h.0

-- The interface of a row keeps what the bindings do not name.
left_uri :
    (sub k id : ℕ) (ns nodes : List VlessNode) (n : VlessNode)
    → find_node id nodes ≡ some n
    → uri_of (
        active_node_of
          (unless (is_node_of sub nodes) (some id))
          (with_nodes k ns (others sub nodes)))
      ≡ (if n.subscription_id == sub then none else some (trim_space n.raw_uri))
unfolding is_node_of
left_uri sub k id ns nodes n f =
    ground (arith, f, find_node-exchanged sub id k ns nodes, Bool-cases (n.subscription_id == sub))

-- The row of an interface when the refresh is over.
abbrev pub refreshed_row : ℕ → ℕ → List VlessNode → List VlessNode → WgInterface → Text → Row
refreshed_row sub k ns nodes w key =
    follow sub (numbered k ns) (binding_row sub nodes (some (w, key)))
      (some (record w { active_node_id = unless (is_node_of sub nodes) w.active_node_id }, key))

bound_active_link :
    (sub k id : ℕ) (ns nodes : List VlessNode) (w : WgInterface) (key : Text) (n : VlessNode)
    → 0 < k
    → Below k nodes
    → All (λ m. m.subscription_id ≡ sub) ns
    → find_node id nodes ≡ some n
    → is_nat sub w.subscription_id ≡ true
    → active_link (with_nodes k ns (others sub nodes)) (
        follow sub
          (numbered k ns)
          (some (trim_space n.raw_uri))
          (some (record w { active_node_id = unless (is_node_of sub nodes) (some id) }, key)))
      ≡ refreshed_uri sub ns w (some n)
bound_active_link sub k id ns nodes w key n pos below of_sub f bound =
    let uri = trim_space n.raw_uri in
    let node = first_by_uri uri (numbered k ns) in
    let given = first_by_uri-offers uri k ns pos in
    let left = left_uri sub k id ns nodes n f in
    rw (trim_space-trim_space n.raw_uri) (elim (Bool-cases (node == 0)) [
      | inl z ↦ rw (z, bound, left) (ground (arith, z, given))
      | inr z ↦
          (let linked = linked_uri uri sub _ (
              IsLinked-with_nodes uri k sub ns (others sub nodes) (others-Below k sub nodes below)
                of_sub z) in
            rw (z, bound, linked) (ground (arith, z, given)))
    ])

row_active_link :
    (sub k : ℕ) (ns nodes : List VlessNode) (w : WgInterface) (key : Text) (o : Option ℕ)
    → 0 < k
    → Below k nodes
    → All (λ m. m.subscription_id ≡ sub) ns
    → Known nodes o
    → active_link (with_nodes k ns (others sub nodes)) (
        follow sub
          (numbered k ns)
          (if is_nat sub w.subscription_id then uri_of (active_node_of o nodes) else none)
          (some (record w { active_node_id = unless (is_node_of sub nodes) o }, key)))
      ≡ refreshed_uri sub ns w (active_node_of o nodes)
row_active_link sub k ns nodes w key none pos below of_sub known =
    ground (arith, Bool-cases (is_nat sub w.subscription_id))
row_active_link sub k ns nodes w key (some id) pos below of_sub known =
    elim (Option-cases (find_node id nodes)) [
      | inl e ↦ ground (arith, e)
      | inr (n, f) ↦ elim (Bool-cases (is_nat sub w.subscription_id)) [
        | inl z ↦ rw (z, f) (bound_active_link sub k id ns nodes w key n pos below of_sub f z)
        | inr z ↦
            rw (z, f, left_uri sub k id ns nodes n f)
              (ground (arith, z, Bool-cases (n.subscription_id == sub)))
      ]
    ]

active_link-remapped :
    (sub i : ℕ) (ns : List VlessNode) (s : State) (w : WgInterface) (key : Text)
    → IsSound s
    → All (λ m. m.subscription_id ≡ sub) ns
    → lookup i s.interfaces ≡ some (w, key)
    → active_link (with_nodes s.next_node ns (others sub s.nodes)) (
        lookup i (
          remapped sub
            (numbered s.next_node ns)
            (active_bindings sub s.nodes s.interfaces)
            (clear_active (is_node_of sub s.nodes) s.interfaces)))
      ≡ refreshed_uri sub ns w (active_node w s.nodes)
active_link-remapped sub i ns s w key (pos, below, distinct, known, junction) of_sub found =
    let bs = active_bindings sub s.nodes s.interfaces in
    let k = s.next_node in
    let before : KnownRow s.nodes (lookup i s.interfaces) =
      lookup-KnownRow s.nodes i s.interfaces known in
    let knows : KnownRow s.nodes (some (w, key)) = rw (found) at before in
    rw
      (
        lookup-remapped sub (numbered k ns) bs i _
            (clear_active-Distinct (is_node_of sub s.nodes) s.interfaces distinct)
            (active_bindings-IsOnce sub s.nodes s.interfaces distinct),
        lookup-clear_active (is_node_of sub s.nodes) i s.interfaces w key found,
        binding_of-active_bindings sub s.nodes i s.interfaces distinct,
        found,
      )
      (row_active_link sub k ns s.nodes w key w.active_node_id pos below of_sub knows)

remapped_nil :
    (sub : ℕ) (bs : List ActiveNodeBinding) (rows : Rows) → remapped sub [] bs rows ≡ rows
unfolding remapped remap_rows first_by_uri
remapped_nil sub [] rows = refl
remapped_nil sub (b ∷ bs) rows = remapped_nil sub bs rows

-- The active link of an interface after the exchange.
pub active_link-exchanged :
    (sub i : ℕ) (ns : List VlessNode) (s : State) (w : WgInterface) (key : Text)
    → IsSound s
    → All (λ m. m.subscription_id ≡ sub) ns
    → lookup i s.interfaces ≡ some (w, key)
    → active_link (exchanged sub ns s).nodes (lookup i (exchanged sub ns s).interfaces)
      ≡ refreshed_uri sub ns w (active_node w s.nodes)
unfolding numbered with_nodes
active_link-exchanged sub i [] s w key sound of_sub found =
    rw
      (sym (
        remapped_nil sub (active_bindings sub s.nodes s.interfaces)
          (clear_active (is_node_of sub s.nodes) s.interfaces)))
      (active_link-remapped sub i [] s w key sound of_sub found)
active_link-exchanged sub i (n ∷ ns) s w key sound of_sub found =
    active_link-remapped sub i (n ∷ ns) s w key sound of_sub found
