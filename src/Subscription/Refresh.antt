-- ===== src/Subscription/Refresh.antt =====
-- FetchAndUpdate of backend/internal/service/subscription.go, on each of its branches.
use xray2wg.Base.{
  ℕ, true, false, Option, some, List, [], ◌∷◌, Text, nat_eq, text_eq, ◌==◌, if◌then◌else◌, All,
  keep_if, is_some, is_empty, length, trim_space, ◌≡◌, refl, arith, lookup,
}
use xray2wg.Domain.{WgInterface, VlessNode}
use xray2wg.Domain.Errors.{ok, Result-cases}
use xray2wg.Subscription.State.{State, Subscription, SubscriptionStatus}
use xray2wg.Subscription.Repo.{
  find_sub, get_sub, update_sub, replace_sub, tunnel_bindings, active_node,
}
use xray2wg.Subscription.Decode.{decode_subscription_body}
use xray2wg.Subscription.Service.{
  Outside, body, is_manual, parse_lines, take_lines, take_body, exchange_nodes, fetch_and_update,
}
use xray2wg.Subscription.Outcome.{
  has_fault, Blame-faults, Outcome, Blame, at, after-Outcome, statement-Outcome,
}
use xray2wg.Subscription.Sound.{IsSound}
use xray2wg.Subscription.Exchange.{exchanged, exchange_nodes-Outcome}
use xray2wg.Subscription.Bindings.{exchanged-tunnel_bindings}
use xray2wg.Subscription.ActiveLink.{active_link, refreshed_uri, active_link-exchanged}
use xray2wg.Subscription.Fresh.{offers}

-- What Update of a refresh writes.
abbrev pub refreshed_sub : Outside → ℕ → Subscription → Subscription
refreshed_sub out count x = record x {
  last_fetched_at = some out.now;
  node_count = count;
  status = SubscriptionStatus.active;
  error_message = [];
}

parse_lines-of :
    (out : Outside) (sub : ℕ) (ls : List Text)
    → All (λ n. n.subscription_id ≡ sub) (parse_lines out sub ls)
unfolding parse_lines
parse_lines-of out sub [] = tt
parse_lines-of out sub (l ∷ ls) =
    ground (arith, parse_lines-of out sub ls, Result-cases (out.parse_uri l))

pub exchanged-subs :
    (sub : ℕ) (ns : List VlessNode) (s : State) → (exchanged sub ns s).subs ≡ s.subs
exchanged-subs sub [] s = refl
exchanged-subs sub (n ∷ ns) s = refl

exchanged-at :
    (sub : ℕ) (ns : List VlessNode) (s : State) (gs : List (Option Text))
    → exchanged sub ns (at s gs) ≡ at (exchanged sub ns s) gs
exchanged-at sub [] s gs = refl
exchanged-at sub (n ∷ ns) s gs = refl

pub find_sub-id :
    (id : ℕ) (ss : List Subscription) (x : Subscription) → find_sub id ss ≡ some x → x.id ≡ id
unfolding find_sub
find_sub-id id [] x h = ground arith
find_sub-id id (y ∷ ss) x h = ground (arith, find_sub-id id ss x)

module _ (F : Type 0) {Q : Unit → State → Type 0} {E : State → Type 0} where
  update_sub-Outcome :
      (x : Subscription) (s : State)
      → is_some (find_sub x.id s.subs) ≡ true
      → Blame F s.faults
      → ((gs : List (Option Text)) → F → E (at s gs))
      → ((gs : List (Option Text))
          → Blame F gs
          → Q tt (record s { faults = gs; subs = replace_sub x s.subs }))
      → Outcome Q E (update_sub x s)
  unfolding update_sub
  update_sub-Outcome x s h b bad q =
      statement-Outcome F _ s b bad λ gs c. rw (h) (record { holds = q gs c })

  pub take_lines-Outcome :
      (out : Outside) (x : Subscription) (sub : ℕ) (ls : List Text) (s : State)
      → IsSound s
      → is_some (find_sub x.id s.subs) ≡ true
      → Blame F s.faults
      → ((t : State) → IsSound t → t.subs ≡ s.subs → F → E t)
      → (let ns = parse_lines out sub ls in
          (gs : List (Option Text))
          → Blame F gs
          → IsSound (exchanged sub ns s)
          → Q tt (record (exchanged sub ns s) {
            faults = gs;
            subs = replace_sub (refreshed_sub out (length ns) x) (exchanged sub ns s).subs;
          }))
      → Outcome Q E (take_lines out x sub ls s)
  unfolding take_lines
  take_lines-Outcome out x sub ls s sound found b bad q =
      let ns = parse_lines out sub ls in
      after-Outcome (exchange_nodes sub ns s) (λ u. update_sub (refreshed_sub out (length ns) x))
        (exchange_nodes-Outcome F sub ns s sound (parse_lines-of out sub ls) b bad λ gs c p.
          update_sub-Outcome (refreshed_sub out (length ns) x) (at (exchanged sub ns s) gs)
            (rw (exchanged-subs sub ns s) found) c
            (λ hs f. bad (at (exchanged sub ns s) hs) p (exchanged-subs sub ns s) f)
            λ hs d. q hs d p)

  -- A call that finds its subscription, which is not the manual one and has a URL.
  pub fetch_and_update-Outcome :
      (out : Outside) (id : ℕ) (x : Subscription) (s : State)
      → find_sub id s.subs ≡ some x
      → is_manual x ≡ false
      → is_empty (trim_space x.url) ≡ false
      → Blame F s.faults
      → ((gs : List (Option Text)) → F → E (at s gs))
      → ((gs : List (Option Text))
          → Blame F gs
          → Outcome Q E (take_body out x id (out.fetch x.url) (at s gs)))
      → Outcome Q E (fetch_and_update out id s)
  unfolding fetch_and_update get_sub
  fetch_and_update-Outcome out id x s found auto url b bad good = after-Outcome (get_sub id s) _ (
      statement-Outcome F _ s b bad
        λ gs c. rw (found) (record { holds = rw (auto, url) (good gs c) }))

-- A refresh that finds its subscription `x`, with a URL, of which vless lines are fetched.
module _ (out : Outside) (id : ℕ) (x : Subscription) (s : State) (b : Text) (ls : List Text) where
  abbrev pub IsServed : Type 0
  IsServed =
      (find_sub id s.subs ≡ some x)
      × (is_manual x ≡ false)
      × (is_empty (trim_space x.url) ≡ false)
      × (out.fetch x.url ≡ body b)
      × (decode_subscription_body out.raw_std out.std b ≡ ok ls)

  abbrev pub fetched_nodes : List VlessNode
  fetched_nodes = parse_lines out id ls

  served :
      {Q : Unit → State → Type 0} {E : State → Type 0}
      → IsServed
      → IsSound s
      → ((t : State) → IsSound t → t.subs ≡ s.subs → has_fault s.faults ≡ true → E t)
      → ((gs : List (Option Text))
          → IsSound (exchanged id fetched_nodes s)
          → Q tt (record (exchanged id fetched_nodes s) {
            faults = gs;
            subs =
                replace_sub
                  (refreshed_sub out (length fetched_nodes) x)
                  (exchanged id fetched_nodes s).subs;
          }))
      → Outcome Q E (fetch_and_update out id s)
  unfolding take_body
  served {Q = Q} {E = E} (found, auto, url, fetched, decoded) sound bad q =
      fetch_and_update-Outcome (has_fault s.faults ≡ true) out id x s found auto url
        (Blame-faults s.faults) (λ gs f. bad (at s gs) sound refl f)
        λ gs c.
          rw (fetched, take_body, decoded)
            (take_lines-Outcome (has_fault s.faults ≡ true) {Q = Q} {E = E} out x id ls (at s gs)
              sound (rw (find_sub-id id s.subs x found, found) refl) c bad
              (λ hs d p.
                (let same = exchanged-at id fetched_nodes s gs in
                  let p' : IsSound (exchanged id fetched_nodes s) = rw (same) at p in
                  rw (same) (q hs p'))))

  -- A refresh either succeeds, and each subscription then has the bindings to tunnels that it had,
  -- in their order and positions, less those of the refreshed one whose link is no longer offered,
  -- or a statement of the database failed. It is a refresh of a sound store that fetches vless
  -- lines.
  pub fetch_and_update-tunnel_bindings :
      (j : ℕ)
      → IsServed
      → IsSound s
      → Outcome
          (λ u t. tunnel_bindings j t.nodes t.junction ≡ (
            if id == j
            then keep_if
                (λ c. offers c.raw_uri fetched_nodes)
                (tunnel_bindings j s.nodes s.junction)
            else tunnel_bindings j s.nodes s.junction))
          (λ t. has_fault s.faults ≡ true)
          (fetch_and_update out id s)
  fetch_and_update-tunnel_bindings j h sound =
      served h sound (λ t p e f. f)
        λ gs p. exchanged-tunnel_bindings id j fetched_nodes s sound (parse_lines-of out id ls)

  -- A refresh either succeeds, and the active node of the interface `i` then has the link that the
  -- active node had before, unless that was a node of the subscription and the interface is not bound
  -- to the subscription or the link is no longer offered, when it has none; or a statement of the
  -- database failed. It is a refresh of a sound store that fetches vless lines.
  pub fetch_and_update-active_link :
      (i : ℕ) (w : WgInterface) (key : Text)
      → IsServed
      → IsSound s
      → lookup i s.interfaces ≡ some (w, key)
      → Outcome
          (λ u t.
            active_link t.nodes (lookup i t.interfaces)
            ≡ refreshed_uri id fetched_nodes w (active_node w s.nodes))
          (λ t. has_fault s.faults ≡ true)
          (fetch_and_update out id s)
  fetch_and_update-active_link i w key h sound found =
      served h sound (λ t p e f. f)
        λ gs p.
          active_link-exchanged id i fetched_nodes s w key sound (parse_lines-of out id ls) found
