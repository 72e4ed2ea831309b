-- ===== src/Subscription/Remap.antt =====
-- RemapActiveNodesAfterRefresh of backend/internal/infrastructure/db/subscription_repo.go: the row of
-- one interface under all bindings of a snapshot.
use xray2wg.Base.{
  ℕ, Bool, Option, none, some, List, [], ◌∷◌, Text, nat_eq, text_eq, ◌==◌, if◌then◌else◌,
  trim_space, ◌≡◌, refl, arith, lookup, Distinct, Bool-cases, Option-cases, nat_beq_iff, inl, inr,
  sym,
}
use xray2wg.Domain.{WgInterface, VlessNode}
use xray2wg.Tunnel.Repo.{Rows}
use xray2wg.Subscription.State.{ActiveNodeBinding}
use xray2wg.Subscription.Repo.{
  first_by_uri, clear_active, unless, is_nat, active_node, active_bindings,
}
use xray2wg.Subscription.Sound.{Known, RowsKnown, set_active-Distinct}
use xray2wg.Subscription.Nodes.{set_active}
use xray2wg.Subscription.Steps.{remap_rows, remapped}

-- The link of the binding of an interface.
unfoldable pub binding_of : ℕ → List ActiveNodeBinding → Option Text
binding_of i [] = none
binding_of i (b ∷ bs) = if b.interface_id == i then some b.raw_uri else binding_of i bs

-- No interface has two bindings.
abbrev pub IsOnce : List ActiveNodeBinding → Type 0
IsOnce [] = Unit
IsOnce (b ∷ bs) = (binding_of b.interface_id bs ≡ none) × IsOnce bs

abbrev pub Row : Type 0
Row = Option (WgInterface × Text)

-- The row of an interface of the subscription, with a new active node.
abbrev pub retarget : ℕ → ℕ → Row → Row
retarget sub node none = none
retarget sub node (some (w, key)) =
    if is_nat sub w.subscription_id
    then some (record w { active_node_id = some node }, key)
    else some (w, key)

pub lookup-set_active :
    (i sub node j : ℕ) (rows : Rows)
    → Distinct rows
    → lookup j (set_active i sub node rows)
      ≡ (if i == j then retarget sub node (lookup j rows) else lookup j rows)
unfolding lookup set_active
lookup-set_active i sub node j [] d = ground arith
lookup-set_active i sub node j ((k, (w, key)) ∷ rows) d = ground (
  arith,
  lookup-set_active i sub node j rows d.1,
  Bool-cases (is_nat sub w.subscription_id),
  Option-cases (lookup j rows),
)

-- The row that a binding leads to.
abbrev pub follow : ℕ → List VlessNode → Option Text → Row → Row
follow sub fresh none r = r
follow sub fresh (some uri) r =
    let node = first_by_uri (trim_space uri) fresh in if node == 0 then r else retarget sub node r

pub lookup-remap_rows :
    (sub : ℕ) (fresh : List VlessNode) (b : ActiveNodeBinding) (j : ℕ) (rows : Rows)
    → Distinct rows
    → lookup j (remap_rows sub fresh b rows) ≡ (
        if b.interface_id == j
        then follow sub fresh (some b.raw_uri) (lookup j rows)
        else lookup j rows)
unfolding remap_rows
lookup-remap_rows sub fresh b j rows d = ground (
  arith,
  lookup-set_active b.interface_id sub (first_by_uri (trim_space b.raw_uri) fresh) j rows d,
)

pub remap_rows-Distinct :
    (sub : ℕ) (fresh : List VlessNode) (b : ActiveNodeBinding) (rows : Rows)
    → Distinct rows
    → Distinct (remap_rows sub fresh b rows)
unfolding remap_rows
remap_rows-Distinct sub fresh b rows d =
    let node = first_by_uri (trim_space b.raw_uri) fresh in
    elim (Bool-cases (node == 0)) [
      | inl z ↦ rw (z) d
      | inr z ↦ rw (z) (set_active-Distinct b.interface_id sub node rows d)
    ]

pub lookup-remapped :
    (sub : ℕ) (fresh : List VlessNode) (bs : List ActiveNodeBinding) (j : ℕ) (rows : Rows)
    → Distinct rows
    → IsOnce bs
    → lookup j (remapped sub fresh bs rows) ≡ follow sub fresh (binding_of j bs) (lookup j rows)
unfolding remapped binding_of
lookup-remapped sub fresh [] j rows d once = refl
lookup-remapped sub fresh (b ∷ bs) j rows d once =
    let rest =
      lookup-remapped sub fresh bs j (remap_rows sub fresh b rows)
        (remap_rows-Distinct sub fresh b rows d) once.1 in
    let step = lookup-remap_rows sub fresh b j rows d in
    elim (Bool-cases (b.interface_id == j)) [
      | inl z ↦
          (let once' : binding_of j bs ≡ none =
              rw (sym ((nat_beq_iff b.interface_id j).0 z)) once.0 in
            rw (rest, once', step, z) refl)
      | inr z ↦ rw (rest, step, z) refl
    ]

-- The link of a node.
abbrev pub uri_of : Option VlessNode → Option Text
uri_of none = none
uri_of (some n) = some (trim_space n.raw_uri)

abbrev pub binding_row : ℕ → List VlessNode → Row → Option Text
binding_row sub nodes none = none
binding_row sub nodes (some (w, key)) =
    if is_nat sub w.subscription_id then uri_of (active_node w nodes) else none

pub binding_of-active_bindings :
    (sub : ℕ) (nodes : List VlessNode) (i : ℕ) (rows : Rows)
    → Distinct rows
    → binding_of i (active_bindings sub nodes rows) ≡ binding_row sub nodes (lookup i rows)
unfolding binding_of active_bindings lookup
binding_of-active_bindings sub nodes i [] d = refl
binding_of-active_bindings sub nodes i ((j, (w, key)) ∷ rows) d = ground (
  arith,
  binding_of-active_bindings sub nodes i rows d.1,
  Bool-cases (is_nat sub w.subscription_id),
  Option-cases (active_node w nodes),
)

pub active_bindings-IsOnce :
    (sub : ℕ) (nodes : List VlessNode) (rows : Rows)
    → Distinct rows
    → IsOnce (active_bindings sub nodes rows)
unfolding active_bindings
active_bindings-IsOnce sub nodes [] d = tt
active_bindings-IsOnce sub nodes ((j, (w, key)) ∷ rows) d = ground (
  arith,
  binding_of-active_bindings sub nodes j rows d.1,
  active_bindings-IsOnce sub nodes rows d.1,
  Bool-cases (is_nat sub w.subscription_id),
  Option-cases (active_node w nodes),
)

pub lookup-clear_active :
    (p : ℕ → Bool) (i : ℕ) (rows : Rows) (w : WgInterface) (key : Text)
    → lookup i rows ≡ some (w, key)
    → lookup i (clear_active p rows)
      ≡ some (record w { active_node_id = unless p w.active_node_id }, key)
unfolding lookup clear_active
lookup-clear_active p i [] w key h = ground arith
lookup-clear_active p i ((j, (v, k)) ∷ rows) w key h =
    ground (arith, lookup-clear_active p i rows w key)

abbrev pub KnownRow : List VlessNode → Row → Type 0
KnownRow nodes none = Unit
KnownRow nodes (some (w, key)) = Known nodes w.active_node_id

pub lookup-KnownRow :
    (nodes : List VlessNode) (i : ℕ) (rows : Rows)
    → RowsKnown nodes rows
    → KnownRow nodes (lookup i rows)
unfolding lookup
lookup-KnownRow nodes i [] k = tt
lookup-KnownRow nodes i ((j, (v, y)) ∷ rows) k = elim (Bool-cases (j == i)) [
  | inl z ↦ rw (lookup, z) k.0
  | inr z ↦ rw (lookup, z) (lookup-KnownRow nodes i rows k.1)
]
