-- ===== src/Subscription/Junction.antt =====
-- backend/internal/infrastructure/db/tunnel_node_repo.go: the nodes that are assigned to a tunnel.
use xray2wg.Base.{
  ℕ, suc, true, false, Option, none, some, List, [], ◌∷◌, ◌++◌, Text, nat_eq, ◌==◌, not, leb,
  if◌then◌else◌, keep_if, is_some, lookup, All, ◌≡◌, refl, arith, Bool-cases, beq_refl, ap, inl,
  inr,
}
use xray2wg.Domain.{VlessNode}
use xray2wg.Subscription.State.{State, TunnelNode, Op, ◌>>◌, return, statement, transaction}
use xray2wg.Subscription.Repo.{find_node}
use xray2wg.Subscription.Nodes.{create_junction}
use xray2wg.Subscription.Steps.{new_row, restore_one-Outcome}
use xray2wg.Subscription.Outcome.{
  has_fault, Blame-faults, Outcome, Blame, at, after-Outcome, statement-Outcome,
  transaction-Outcome,
}
use xray2wg.Subscription.Fresh.{append_assoc, append_nil}
use xray2wg.Domain.Errors.{ok}

abbrev pub unassign : ℕ → Op Unit
unassign tunnel s =
    (ok tt, record s { junction = keep_if (λ t. not (t.interface_id == tunnel)) s.junction })

-- The rows of a list of nodes, from a position on.
unfoldable pub assign_each : ℕ → ℕ → List ℕ → Op Unit
unfolding create_junction
assign_each tunnel i [] = return tt
assign_each tunnel i (n ∷ ns) =
    create_junction (record { interface_id = tunnel; raw_uri = []; position = i }) n
    >> assign_each tunnel (suc i) ns

-- SetNodes
unfoldable pub set_nodes : ℕ → List ℕ → Op Unit
unfolding transaction statement assign_each
set_nodes tunnel ns = transaction do statement (unassign tunnel); assign_each tunnel 0 ns

-- `ORDER BY position ASC`
abbrev pub place : TunnelNode → List TunnelNode → List TunnelNode
place t [] = t ∷ []
place t (u ∷ us) = if leb t.position u.position then t ∷ u ∷ us else u ∷ place t us

abbrev pub by_position : List TunnelNode → List TunnelNode
by_position [] = []
by_position (t ∷ ts) = place t (by_position ts)

-- The nodes that are there.
abbrev pub node_or : Option VlessNode → List VlessNode → List VlessNode
node_or none ns = ns
node_or (some n) ns = n ∷ ns

abbrev pub preloaded : List VlessNode → List TunnelNode → List VlessNode
preloaded nodes [] = []
preloaded nodes (t ∷ ts) = node_or (find_node t.node_id nodes) (preloaded nodes ts)

-- ListNodes, of a database that answers
abbrev pub assigned : ℕ → State → List VlessNode
assigned tunnel s =
    preloaded s.nodes (by_position (keep_if (λ t. t.interface_id == tunnel) s.junction))

-- The nodes of a list of ids.
abbrev pub nodes_of : List VlessNode → List ℕ → List VlessNode
nodes_of nodes [] = []
nodes_of nodes (n ∷ ns) = node_or (find_node n nodes) (nodes_of nodes ns)

unfoldable assigned_rows : ℕ → ℕ → ℕ → List ℕ → List TunnelNode
assigned_rows k tunnel i [] = []
assigned_rows k tunnel i (n ∷ ns) =
    new_row k (record { interface_id = tunnel; raw_uri = []; position = i }) n
    ∷ assigned_rows (suc k) tunnel (suc i) ns

by_position-assigned_rows :
    (k tunnel i : ℕ) (ns : List ℕ)
    → by_position (assigned_rows k tunnel i ns) ≡ assigned_rows k tunnel i ns
unfolding assigned_rows
by_position-assigned_rows k tunnel i [] = refl
by_position-assigned_rows k tunnel i (n ∷ []) = refl
by_position-assigned_rows k tunnel i (n ∷ m ∷ ns) =
    rw (by_position-assigned_rows (suc k) tunnel (suc i) (m ∷ ns)) (ground arith)

preloaded-assigned_rows :
    (nodes : List VlessNode) (k tunnel i : ℕ) (ns : List ℕ)
    → preloaded nodes (assigned_rows k tunnel i ns) ≡ nodes_of nodes ns
unfolding assigned_rows
preloaded-assigned_rows nodes k tunnel i [] = refl
preloaded-assigned_rows nodes k tunnel i (n ∷ ns) =
    ap (node_or (find_node n nodes)) (preloaded-assigned_rows nodes (suc k) tunnel (suc i) ns)

-- Of the rows that were left and the new ones, the new ones are the tunnel's.
own_rows_only :
    (k tunnel i : ℕ) (ns : List ℕ)
    → keep_if (λ t. t.interface_id == tunnel) (assigned_rows k tunnel i ns)
      ≡ assigned_rows k tunnel i ns
unfolding assigned_rows
own_rows_only k tunnel i [] = refl
own_rows_only k tunnel i (n ∷ ns) =
    rw (beq_refl tunnel, own_rows_only (suc k) tunnel (suc i) ns) refl

own_rows :
    (k tunnel i : ℕ) (ns : List ℕ) (ts : List TunnelNode)
    → keep_if
        (λ t. t.interface_id == tunnel)
        (keep_if (λ t. not (t.interface_id == tunnel)) ts ++ assigned_rows k tunnel i ns)
      ≡ assigned_rows k tunnel i ns
own_rows k tunnel i ns [] = own_rows_only k tunnel i ns
own_rows k tunnel i ns (t ∷ ts) = elim (Bool-cases (t.interface_id == tunnel)) [
  | inl z ↦ rw (z) (own_rows k tunnel i ns ts)
  | inr z ↦ rw (z) (rw (z) (own_rows k tunnel i ns ts))
]

reassigned :
    (nodes : List VlessNode) (tunnel k : ℕ) (ns : List ℕ) (ts : List TunnelNode)
    → preloaded nodes (
        by_position (
          keep_if
            (λ t. t.interface_id == tunnel)
            (keep_if (λ t. not (t.interface_id == tunnel)) ts ++ assigned_rows k tunnel 0 ns)))
      ≡ nodes_of nodes ns
reassigned nodes tunnel k ns ts =
    rw (own_rows k tunnel 0 ns ts, by_position-assigned_rows k tunnel 0 ns)
      (preloaded-assigned_rows nodes k tunnel 0 ns)

module _ (F : Type 0) (tunnel : ℕ) where
  assign_each-Outcome :
      (i : ℕ) (ns : List ℕ) {Q : Unit → State → Type 0} {E : State → Type 0} (s : State)
      → All (λ n. is_some (find_node n s.nodes) ≡ true) ns
      → is_some (lookup tunnel s.interfaces) ≡ true
      → Blame F s.faults
      → ((t : State) → F → E t)
      → ((gs : List (Option Text)) (k : ℕ)
          → Blame F gs
          → Q tt (record s {
            faults = gs;
            junction = s.junction ++ assigned_rows s.next_junction tunnel i ns;
            next_junction = k;
          }))
      → Outcome Q E (assign_each tunnel i ns s)
  unfolding assign_each assigned_rows
  assign_each-Outcome i [] {Q} s h it b bad q =
      let r = q s.faults s.next_junction b in
      let r' : Q tt s = rw (append_nil s.junction) at r in record { holds = r' }
  assign_each-Outcome i (n ∷ ns) {Q} s h it b bad q =
      after-Outcome
        (create_junction (record { interface_id = tunnel; raw_uri = []; position = i }) n s) _
        (restore_one-Outcome F false (record { interface_id = tunnel; raw_uri = []; position = i })
          n s (λ e. h.0) it b (λ gs. bad (at s gs))
          λ gs c. assign_each-Outcome (suc i) ns _ h.1 it c bad (λ hs k d.
            rw
              (append_assoc s.junction
                (new_row s.next_junction
                    (record { interface_id = tunnel; raw_uri = []; position = i }) n
                  ∷ [])
                (assigned_rows (suc s.next_junction) tunnel (suc i) ns))
              (q hs k d)))

-- When nodes that are there are assigned to a tunnel that is there, either the tunnel's nodes are
-- then those of the list, in the order of the list, or a statement of the database failed.
pub assigned-set_nodes :
    (tunnel : ℕ) (ns : List ℕ) (s : State)
    → All (λ n. is_some (find_node n s.nodes) ≡ true) ns
    → is_some (lookup tunnel s.interfaces) ≡ true
    → Outcome
        (λ u t. assigned tunnel t ≡ nodes_of s.nodes ns)
        (λ t. has_fault s.faults ≡ true)
        (set_nodes tunnel ns s)
unfolding set_nodes
assigned-set_nodes tunnel ns s h it =
    transaction-Outcome (has_fault s.faults ≡ true)
      (statement (unassign tunnel) >> assign_each tunnel 0 ns) s (λ gs f. f)
      (after-Outcome (statement (unassign tunnel) s) (λ x. assign_each tunnel 0 ns)
        (statement-Outcome (has_fault s.faults ≡ true) (unassign tunnel) s (Blame-faults s.faults)
          (λ gs f. f)
          λ gs c. record {
            holds =
                assign_each-Outcome (has_fault s.faults ≡ true) tunnel 0 ns
                  ((unassign tunnel (at s gs)).1) h it c (λ t f. f)
                  λ hs k d. (d, λ is e. reassigned s.nodes tunnel s.next_junction ns s.junction);
          }))
