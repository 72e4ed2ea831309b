-- ===== src/Subscription/Twins.antt =====
-- AddManualVlessNode of backend/internal/service/subscription.go: no link stands twice under the manual
-- subscription.
use xray2wg.Base.{
  ℕ, false, Option, some, List, [], ◌∷◌, ◌++◌, Text, text_eq, nat_eq, ◌==◌, if◌then◌else◌, contains,
  keep_if, is_empty, trim_space, text_beq_iff, nat_beq_iff, ◌≡◌, refl, arith, Bool-cases,
  Option-cases, inl, inr,
}
use xray2wg.Domain.{VlessNode}
use xray2wg.Domain.Errors.{Result, Result-cases}
use xray2wg.Subscription.State.{State, Subscription}
use xray2wg.Subscription.Repo.{find_sub, get_sub, list_subs}
use xray2wg.Subscription.Nodes.{list_nodes, insert_nodes, stored_row}
use xray2wg.Subscription.Service.{Outside, find_manual, ensure_manual}
use xray2wg.Subscription.Manual.{has_link, sync_manual_meta, add_node, add_manual_vless_node}
use xray2wg.Subscription.Outcome.{Outcome, at, after-Outcome, statement-Outcome}
use xray2wg.Subscription.Steps.{with_nodes}
use xray2wg.Subscription.Kept.{inserted}
use xray2wg.Subscription.Exchange.{insert_nodes-Outcome}
use xray2wg.Subscription.Failure.{update_sub_any}

-- The links of the nodes of a subscription.
unfoldable pub links : ℕ → List VlessNode → List Text
unfolding trim_space
links sub [] = []
links sub (n ∷ ns) =
    let rest = links sub ns in
    if n.subscription_id == sub then trim_space n.raw_uri ∷ rest else rest

abbrev pub AllDifferent : List Text → Type 0
AllDifferent [] = Unit
AllDifferent (u ∷ us) = (contains u us ≡ false) × AllDifferent us

has_link-keep_if :
    (sub : ℕ) (key : Text) (nodes : List VlessNode)
    → has_link (λ e. false) key (keep_if (λ n. n.subscription_id == sub) nodes)
      ≡ contains key (links sub nodes)
unfolding has_link contains links
has_link-keep_if sub key [] = refl
has_link-keep_if sub key (n ∷ ns) =
    ground (arith, has_link-keep_if sub key ns, Bool-cases (n.subscription_id == sub))

links-append :
    (sub : ℕ) (n : VlessNode) (nodes : List VlessNode)
    → n.subscription_id ≡ sub
    → links sub (nodes ++ (n ∷ [])) ≡ links sub nodes ++ (trim_space n.raw_uri ∷ [])
unfolding links
links-append sub n [] h = ground (arith, nat_beq_iff n.subscription_id sub)
links-append sub n (m ∷ ns) h =
    ground (arith, links-append sub n ns h, Bool-cases (m.subscription_id == sub))

contains-snoc :
    (u v : Text) (us : List Text)
    → contains u us ≡ false
    → (u ≡ v → ⊥)
    → contains u (us ++ (v ∷ [])) ≡ false
unfolding contains
contains-snoc u v [] h d = ground (arith, text_beq_iff v u)
contains-snoc u v (w ∷ us) h d = ground (arith, contains-snoc u v us)

snoc-AllDifferent :
    (v : Text) (us : List Text)
    → AllDifferent us
    → contains v us ≡ false
    → AllDifferent (us ++ (v ∷ []))
unfolding contains
snoc-AllDifferent v [] a h = (refl, tt)
snoc-AllDifferent v (u ∷ us) a h = (
  contains-snoc u v us a.0 (λ e. ground (arith, text_beq_iff u v)),
  snoc-AllDifferent v us a.1 (ground (arith, Bool-cases (u == v))),
)

-- No link stands twice among the nodes of a subscription.
abbrev pub Twinless : ℕ → State → Type 0
Twinless sub s = AllDifferent (links sub s.nodes)

module _ {Q : Unit → State → Type 0} {E : State → Type 0} where
  sync_manual_meta-nodes :
      (sub : ℕ) (s : State)
      → ((gs : List (Option Text)) (ss : List Subscription)
          → Q tt (record s { faults = gs; subs = ss }))
      → ((gs : List (Option Text)) → E (at s gs))
      → Outcome Q E (sync_manual_meta sub s)
  unfolding sync_manual_meta list_nodes get_sub
  sync_manual_meta-nodes sub s q e = after-Outcome (list_nodes sub s) _ (
      statement-Outcome Unit _ s (inr tt) (λ gs u. e gs)
        λ gs c. record {
          holds = after-Outcome (get_sub sub (at s gs)) _ (
              statement-Outcome Unit _ (at s gs) (inr tt) (λ hs u. e hs)
                λ hs d. elim (Option-cases (find_sub sub s.subs)) [
                  | inl z ↦ rw (z) (record { holds = e hs })
                  | inr (x, z) ↦ rw (z) (record {
                    holds = update_sub_any Unit _ (at s hs) (inr tt) (λ is f. q is _) λ is f. e is;
                  })
                ]);
        })

-- The nodes after the insertion of one.
inserted-Twinless :
    (sub : ℕ) (n : VlessNode) (s : State)
    → n.subscription_id ≡ sub
    → Twinless sub s
    → contains (trim_space n.raw_uri) (links sub s.nodes) ≡ false
    → AllDifferent (links sub (with_nodes s.next_node (n ∷ []) s.nodes))
unfolding with_nodes stored_row
inserted-Twinless sub n s h a c =
    rw (links-append sub (stored_row s.next_node n) s.nodes h)
      (snoc-AllDifferent (trim_space n.raw_uri) (links sub s.nodes) a c)

abbrev Keeps : {A : Type 0} → ℕ → Result A × State → Type 0
Keeps sub r = Outcome (λ a t. Twinless sub t) (Twinless sub) r

add_node-Twinless :
    (sub : ℕ) (node : VlessNode) (s : State) → Twinless sub s → Keeps sub (add_node sub node s)
unfolding add_node list_nodes
add_node-Twinless sub node s a =
    let n = record node { subscription_id = sub } in
    after-Outcome (list_nodes sub s) _ (
      statement-Outcome Unit _ s (inr tt) (λ gs u. a)
        λ gs c. record {
          holds = elim (Bool-cases (contains (trim_space n.raw_uri) (links sub s.nodes))) [
            | inl z ↦
                rw (has_link-keep_if sub (trim_space n.raw_uri) s.nodes, z) (record { holds = a })
            | inr z ↦
                (let more = inserted-Twinless sub n s refl a z in
                  rw (has_link-keep_if sub (trim_space n.raw_uri) s.nodes, z)
                    (after-Outcome (insert_nodes (n ∷ []) (at s gs)) _ (
                      insert_nodes-Outcome Unit (n ∷ []) (at s gs) (inr tt) (λ hs u. a)
                        λ hs d.
                          after-Outcome (sync_manual_meta sub (at (inserted (n ∷ []) s) hs)) _ (
                            sync_manual_meta-nodes sub (at (inserted (n ∷ []) s) hs)
                              (λ is ss. record { holds = more }) (λ is. more)))))
          ];
        })

-- Adding a node by its link leaves no link twice under the manual subscription, where none stood
-- twice before and the subscription is there, whether the call succeeds or fails and at whatever
-- statement.
pub add_manual_vless_node-Twinless :
    (out : Outside) (text : Text) (x : Subscription) (s : State)
    → find_manual s.subs ≡ some x
    → Twinless x.id s
    → Outcome (λ n t. Twinless x.id t) (Twinless x.id) (add_manual_vless_node out text s)
unfolding add_manual_vless_node ensure_manual list_subs
add_manual_vless_node-Twinless out text x s found a =
    elim (Bool-cases (is_empty (trim_space text))) [
      | inl z ↦ rw (z) (record { holds = a })
      | inr z ↦ rw (z) (
          after-Outcome (ensure_manual s) _ (
            after-Outcome (list_subs s) _ (
              statement-Outcome Unit _ s (inr tt) (λ gs u. a)
                λ gs c. record {
                  holds = rw (found) (record {
                    holds = elim (Result-cases (out.parse_uri (trim_space text))) [
                      | inl (e, h) ↦ rw (h) (record { holds = a })
                      | inr (n, h) ↦ rw (h) (add_node-Twinless x.id n (at s gs) a)
                    ];
                  });
                })))
    ]
