-- ===== src/Subscription/Fresh.antt =====
-- The ids that a refresh hands out: `firstByURI` finds a new node with the link asked for, if there
-- is one.
use xray2wg.Base.{
  ℕ, suc, ◌<◌, ◌≤◌, Bool, true, false, Option, none, some, List, [], ◌∷◌, ◌++◌, Text, nat_eq,
  text_eq, ◌==◌, ◌&&◌, not, All, All-append, any, is_some, is_empty, trim_space, ◌≡◌, refl, arith,
  text_beq_iff, ◌∙◌, sym, ap,
}
use xray2wg.Domain.{VlessNode}
use xray2wg.Subscription.Repo.{find_node, first_by_uri}
use xray2wg.Subscription.Nodes.{stored_row}
use xray2wg.Subscription.Steps.{numbered, with_nodes, count_up}
use xray2wg.Subscription.Sound.{Below}

-- The rows of new nodes.
unfoldable pub stored_rows : ℕ → List VlessNode → List VlessNode
unfolding stored_row
stored_rows k [] = []
stored_rows k (n ∷ ns) = stored_row k n ∷ stored_rows (suc k) ns

pub append_assoc : {A : Type 0} (xs ys zs : List A) → (xs ++ ys) ++ zs ≡ xs ++ (ys ++ zs)
append_assoc [] ys zs = refl
append_assoc (x ∷ xs) ys zs = ap (λ l. x ∷ l) (append_assoc xs ys zs)

pub append_nil : {A : Type 0} (xs : List A) → xs ++ [] ≡ xs
append_nil [] = refl
append_nil (x ∷ xs) = ap (λ l. x ∷ l) (append_nil xs)

pub with_nodes_append :
    (k : ℕ) (ns old : List VlessNode) → with_nodes k ns old ≡ old ++ stored_rows k ns
unfolding with_nodes stored_rows
with_nodes_append k [] old = sym (append_nil old)
with_nodes_append k (n ∷ ns) old =
    with_nodes_append (suc k) ns (old ++ (stored_row k n ∷ []))
    ∙ append_assoc old (stored_row k n ∷ []) (stored_rows (suc k) ns)

pub count_up_le : (k : ℕ) (ns : List VlessNode) → k ≤ count_up k ns
unfolding count_up
count_up_le k [] = ground arith
count_up_le k (n ∷ ns) = omega (arith, count_up_le (suc k) ns)

Below-mono : (j k : ℕ) (ns : List VlessNode) → j ≤ k → Below j ns → Below k ns
Below-mono j k [] h b = tt
Below-mono j k (n ∷ ns) h b = (omega arith, Below-mono j k ns h b.1)

stored_rows-Below : (k : ℕ) (ns : List VlessNode) → Below (count_up k ns) (stored_rows k ns)
unfolding stored_rows stored_row count_up
stored_rows-Below k [] = tt
stored_rows-Below k (n ∷ ns) = (omega (arith, count_up_le (suc k) ns), stored_rows-Below (suc k) ns)

pub with_nodes-Below :
    (k : ℕ) (ns old : List VlessNode) → Below k old → Below (count_up k ns) (with_nodes k ns old)
with_nodes-Below k ns old b = rw (with_nodes_append k ns old) (
    All-append (λ n. n.id < count_up k ns) old (stored_rows k ns)
      (Below-mono k (count_up k ns) old (count_up_le k ns) b) (stored_rows-Below k ns))

-- Whether one of the nodes has a link, which is not empty.
unfoldable pub offers : Text → List VlessNode → Bool
unfolding trim_space
offers uri ns = not (is_empty uri) && any (λ n. trim_space n.raw_uri == uri) ns

pub first_by_uri-offers :
    (uri : Text) (k : ℕ) (ns : List VlessNode)
    → 0 < k
    → (first_by_uri uri (numbered k ns) == 0) ≡ not (offers uri ns)
unfolding first_by_uri numbered offers
first_by_uri-offers uri k [] h = ground arith
first_by_uri-offers uri k (n ∷ ns) h =
    ground (arith, first_by_uri-offers uri (suc k) ns, text_beq_iff (trim_space n.raw_uri) uri)

-- The row of a new node with the link.
abbrev pub IsLinked : Text → ℕ → Option VlessNode → Type 0
IsLinked uri sub none = ⊥
IsLinked uri sub (some m) = (trim_space m.raw_uri ≡ uri) × (m.subscription_id ≡ sub)

find_node-above :
    (id k : ℕ) (old ys : List VlessNode)
    → Below k old
    → k ≤ id
    → find_node id (old ++ ys) ≡ find_node id ys
unfolding find_node
find_node-above id k [] ys b h = refl
find_node-above id k (n ∷ old) ys b h = ground (arith, find_node-above id k old ys b.1)

first_by_uri_le :
    (uri : Text) (k : ℕ) (ns : List VlessNode)
    → (first_by_uri uri (numbered k ns) == 0) ≡ false
    → k ≤ first_by_uri uri (numbered k ns)
unfolding first_by_uri numbered
first_by_uri_le uri k [] h = ground arith
first_by_uri_le uri k (n ∷ ns) h = ground (arith, first_by_uri_le uri (suc k) ns)

IsLinked-stored_rows :
    (uri : Text) (k sub : ℕ) (ns : List VlessNode)
    → All (λ n. n.subscription_id ≡ sub) ns
    → (first_by_uri uri (numbered k ns) == 0) ≡ false
    → IsLinked uri sub (find_node (first_by_uri uri (numbered k ns)) (stored_rows k ns))
unfolding first_by_uri numbered stored_rows stored_row find_node
IsLinked-stored_rows uri k sub [] a h = ground arith
IsLinked-stored_rows uri k sub (n ∷ ns) a h = ground (
  arith,
  IsLinked-stored_rows uri (suc k) sub ns a.1,
  first_by_uri_le uri (suc k) ns,
  text_beq_iff (trim_space n.raw_uri) uri,
)

-- A link that the new nodes offer leads to the row of one of them.
pub IsLinked-with_nodes :
    (uri : Text) (k sub : ℕ) (ns old : List VlessNode)
    → Below k old
    → All (λ n. n.subscription_id ≡ sub) ns
    → (first_by_uri uri (numbered k ns) == 0) ≡ false
    → IsLinked uri sub (find_node (first_by_uri uri (numbered k ns)) (with_nodes k ns old))
IsLinked-with_nodes uri k sub ns old b a h =
    let id = first_by_uri uri (numbered k ns) in
    rw
      (
        with_nodes_append k ns old,
        find_node-above id k old (stored_rows k ns) b (first_by_uri_le uri k ns h),
      )
      (IsLinked-stored_rows uri k sub ns a h)

linked_found : (uri : Text) (sub : ℕ) (o : Option VlessNode) → IsLinked uri sub o → is_some o ≡ true
linked_found uri sub none h = elim h [ ]
linked_found uri sub (some m) h = refl

pub first_by_uri-Known :
    (uri : Text) (k sub : ℕ) (ns old : List VlessNode)
    → Below k old
    → All (λ n. n.subscription_id ≡ sub) ns
    → (first_by_uri uri (numbered k ns) == 0) ≡ false
    → is_some (find_node (first_by_uri uri (numbered k ns)) (with_nodes k ns old)) ≡ true
first_by_uri-Known uri k sub ns old b a h =
    linked_found uri sub _ (IsLinked-with_nodes uri k sub ns old b a h)
