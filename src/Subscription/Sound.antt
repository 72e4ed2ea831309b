-- ===== src/Subscription/Sound.antt =====
-- Every reference to a node has its node: what the tables of the subscription service promise one
-- another, and how each change of a refresh keeps it.
use xray2wg.Base.{
  ℕ, ◌<◌, Bool, true, false, Option, none, some, List, [], ◌∷◌, ◌++◌, Text, nat_eq, ◌==◌, ◌&&◌, not,
  All, keep_if, is_some, lookup, Distinct, ◌≡◌, refl, arith, Bool-cases, Option-cases,
}
use xray2wg.Domain.{WgInterface, VlessNode}
use xray2wg.Tunnel.Repo.{Rows}
use xray2wg.Subscription.State.{State, TunnelNode}
use xray2wg.Subscription.Repo.{find_node, is_node_of, clear_active, unless, is_nat}
use xray2wg.Subscription.Nodes.{set_active}

abbrev pub Known : List VlessNode → Option ℕ → Type 0
Known nodes none = Unit
Known nodes (some id) = is_some (find_node id nodes) ≡ true

-- The active node of a row.
abbrev pub active_id : ℕ × (WgInterface × Text) → Option ℕ
active_id (i, (w, key)) = w.active_node_id

abbrev pub RowsKnown : List VlessNode → Rows → Type 0
RowsKnown nodes rows = All (λ r. Known nodes (active_id r)) rows

abbrev pub JunctionKnown : List VlessNode → Rows → List TunnelNode → Type 0
JunctionKnown nodes rows ts =
    All
      (λ t.
        (is_some (find_node t.node_id nodes) ≡ true)
        × (is_some (lookup t.interface_id rows) ≡ true))
      ts

abbrev pub Below : ℕ → List VlessNode → Type 0
Below k nodes = All (λ n. n.id < k) nodes

abbrev pub IsSound : State → Type 0
IsSound s =
    (0 < s.next_node)
    × Below s.next_node s.nodes
    × Distinct s.interfaces
    × RowsKnown s.nodes s.interfaces
    × JunctionKnown s.nodes s.interfaces s.junction

-- The nodes that DeleteNodes leaves.
abbrev pub others : ℕ → List VlessNode → List VlessNode
others sub nodes = keep_if (λ n. not (n.subscription_id == sub)) nodes

pub find_node-others :
    (sub id : ℕ) (nodes : List VlessNode)
    → is_node_of sub nodes id ≡ false
    → is_some (find_node id nodes) ≡ true
    → find_node id (others sub nodes) ≡ find_node id nodes
unfolding find_node is_node_of
find_node-others sub id [] h k = refl
find_node-others sub id (n ∷ ns) h k = ground (arith, find_node-others sub id ns)

pub others-Below : (k sub : ℕ) (nodes : List VlessNode) → Below k nodes → Below k (others sub nodes)
others-Below k sub [] h = tt
others-Below k sub (n ∷ ns) h =
    ground (arith, others-Below k sub ns h.1, Bool-cases (n.subscription_id == sub))

pub find_node-append :
    (id : ℕ) (xs ys : List VlessNode)
    → is_some (find_node id xs) ≡ true
    → find_node id (xs ++ ys) ≡ find_node id xs
unfolding find_node
find_node-append id [] ys h = ground arith
find_node-append id (x ∷ xs) ys h = ground (arith, find_node-append id xs ys)

pub lookup-clear_active :
    (p : ℕ → Bool) (i : ℕ) (rows : Rows)
    → is_some (lookup i (clear_active p rows)) ≡ is_some (lookup i rows)
unfolding lookup clear_active
lookup-clear_active p i [] = refl
lookup-clear_active p i ((j, (w, key)) ∷ rows) = ground (arith, lookup-clear_active p i rows)

pub lookup-set_active :
    (j sub node i : ℕ) (rows : Rows)
    → is_some (lookup i (set_active j sub node rows)) ≡ is_some (lookup i rows)
unfolding lookup set_active
lookup-set_active j sub node i [] = refl
lookup-set_active j sub node i ((k, (w, key)) ∷ rows) =
    ground (arith, lookup-set_active j sub node i rows)

not_some :
    {A B : Type 0} (o : Option A) (p : Option B) → is_some o ≡ is_some p → p ≡ none → o ≡ none
not_some o p h e = ground (arith, Option-cases o)

pub clear_active-Distinct :
    (p : ℕ → Bool) (rows : Rows) → Distinct rows → Distinct (clear_active p rows)
unfolding clear_active
clear_active-Distinct p [] d = tt
clear_active-Distinct p ((i, (w, key)) ∷ rows) d =
    (not_some _ _ (lookup-clear_active p i rows) d.0, clear_active-Distinct p rows d.1)

Known-others :
    (sub : ℕ) (nodes : List VlessNode) (o : Option ℕ)
    → Known nodes o
    → Known (others sub nodes) (unless (is_node_of sub nodes) o)
Known-others sub nodes none h = tt
Known-others sub nodes (some id) h =
    ground (arith, find_node-others sub id nodes, Bool-cases (is_node_of sub nodes id))

pub clear_active-RowsKnown :
    (sub : ℕ) (nodes : List VlessNode) (rows : Rows)
    → RowsKnown nodes rows
    → RowsKnown (others sub nodes) (clear_active (is_node_of sub nodes) rows)
unfolding clear_active
clear_active-RowsKnown sub nodes [] h = tt
clear_active-RowsKnown sub nodes ((i, (w, key)) ∷ rows) h =
    (Known-others sub nodes w.active_node_id h.0, clear_active-RowsKnown sub nodes rows h.1)

-- The rows of tunnel_nodes that DeleteNodes leaves.
abbrev pub other_rows : ℕ → List VlessNode → List TunnelNode → List TunnelNode
other_rows sub nodes ts = keep_if (λ t. not (is_node_of sub nodes t.node_id)) ts

pub other_rows-JunctionKnown :
    (sub : ℕ) (nodes : List VlessNode) (p : ℕ → Bool) (rows : Rows) (ts : List TunnelNode)
    → JunctionKnown nodes rows ts
    → JunctionKnown (others sub nodes) (clear_active p rows) (other_rows sub nodes ts)
other_rows-JunctionKnown sub nodes p rows [] h = tt
other_rows-JunctionKnown sub nodes p rows (t ∷ ts) h = ground (
  arith,
  find_node-others sub t.node_id nodes,
  lookup-clear_active p t.interface_id rows,
  other_rows-JunctionKnown sub nodes p rows ts h.1,
  Bool-cases (is_node_of sub nodes t.node_id),
)

Known-append : (xs ys : List VlessNode) (o : Option ℕ) → Known xs o → Known (xs ++ ys) o
Known-append xs ys none h = tt
Known-append xs ys (some id) h = ground (arith, find_node-append id xs ys)

pub RowsKnown-append :
    (xs ys : List VlessNode) (rows : Rows) → RowsKnown xs rows → RowsKnown (xs ++ ys) rows
RowsKnown-append xs ys [] h = tt
RowsKnown-append xs ys (r ∷ rows) h =
    (Known-append xs ys (active_id r) h.0, RowsKnown-append xs ys rows h.1)

pub JunctionKnown-append :
    (xs ys : List VlessNode) (rows : Rows) (ts : List TunnelNode)
    → JunctionKnown xs rows ts
    → JunctionKnown (xs ++ ys) rows ts
JunctionKnown-append xs ys rows [] h = tt
JunctionKnown-append xs ys rows (t ∷ ts) h =
    ground (arith, find_node-append t.node_id xs ys, JunctionKnown-append xs ys rows ts h.1)

pub set_active-Distinct :
    (i sub node : ℕ) (rows : Rows) → Distinct rows → Distinct (set_active i sub node rows)
unfolding set_active
set_active-Distinct i sub node [] d = tt
set_active-Distinct i sub node ((j, (w, key)) ∷ rows) d = ground (
  arith,
  not_some _ _ (lookup-set_active i sub node j rows) d.0,
  set_active-Distinct i sub node rows d.1,
  Bool-cases ((j == i) && is_nat sub w.subscription_id),
)

pub set_active-RowsKnown :
    (i sub node : ℕ) (nodes : List VlessNode) (rows : Rows)
    → is_some (find_node node nodes) ≡ true
    → RowsKnown nodes rows
    → RowsKnown nodes (set_active i sub node rows)
unfolding set_active
set_active-RowsKnown i sub node nodes [] k h = tt
set_active-RowsKnown i sub node nodes ((j, (w, key)) ∷ rows) k h = ground (
  arith,
  set_active-RowsKnown i sub node nodes rows k h.1,
  Bool-cases ((j == i) && is_nat sub w.subscription_id),
)

pub set_active-JunctionKnown :
    (i sub node : ℕ) (nodes : List VlessNode) (rows : Rows) (ts : List TunnelNode)
    → JunctionKnown nodes rows ts
    → JunctionKnown nodes (set_active i sub node rows) ts
set_active-JunctionKnown i sub node nodes rows [] h = tt
set_active-JunctionKnown i sub node nodes rows (t ∷ ts) h = ground (
  arith,
  lookup-set_active i sub node t.interface_id rows,
  set_active-JunctionKnown i sub node nodes rows ts h.1,
)
