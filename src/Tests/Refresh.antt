-- ===== src/Tests/Refresh.antt =====
-- Witnesses: the refresh of a subscription whose first node is gone at its source, and an import.
use xray2wg.Base.{
  true, ℕ, false, none, some, List, [], ◌∷◌, ◌++◌, Text, codes, ◌≡◌, refl, arith, nat_eq, lookup,
  keep_if, text_beq, text_eq, split_on, trim_space, trim_left, trim_right, is_space, to_lower,
  has_prefix, contains,
}
use xray2wg.Base.Int.{pos}
use xray2wg.Domain.{WgInterface, VlessNode}
use xray2wg.Domain.Errors.{plain, ok}
use xray2wg.Subscription.State.{State, Subscription, SubscriptionStatus}
use xray2wg.Subscription.Repo.{tunnel_bindings, active_node, find_sub, find_node}
use xray2wg.Subscription.Decode.{
  decode_subscription_body, split_lines, first_lines, replace_crlf, extract_vless,
}
use xray2wg.Subscription.Service.{Outside, body, no_response, fetch_and_update, find_manual}
use xray2wg.Subscription.Manual.{exported, import_minimal, add_manual_vless_node}
use xray2wg.Subscription.Outcome.{has_fault, Outcome}
use xray2wg.Subscription.Sound.{IsSound}
use xray2wg.Subscription.Fresh.{offers}
use xray2wg.Subscription.Refresh.{
  IsServed, fetched_nodes, fetch_and_update-tunnel_bindings, fetch_and_update-active_link,
}
use xray2wg.Subscription.ActiveLink.{active_link, refreshed_uri}
use xray2wg.Subscription.Failure.{fetch_and_update_unserved, fetch_and_update-IsSound}
use xray2wg.Subscription.Import.{exported-import_minimal}
use xray2wg.Subscription.Twins.{Twinless, links, add_manual_vless_node-Twinless}
use xray2wg.Subscription.Junction.{set_nodes, assigned, assigned-set_nodes}
use xray2wg.Tests.Lifecycle.{tunnel_row}

abbrev node : ℕ → Text → VlessNode
node id uri = record {
  id = id;
  subscription_id = 1;
  display_name = codes "n";
  uuid = codes "u";
  address = codes "example.org";
  port = 443;
  flow = [];
  encryption = codes "none";
  packet_encoding = [];
  network = codes "tcp";
  transport_config = [];
  security = codes "none";
  security_config = [];
  raw_uri = uri;
}

abbrev old_node : VlessNode
old_node = node 1 (codes "vless://a")

abbrev kept_node : VlessNode
kept_node = node 2 (codes "vless://b")

abbrev sub : Subscription
sub = record {
  id = 1;
  name = codes "s";
  url = codes "http://x";
  refresh_interval = pos 3600;
  last_fetched_at = none;
  node_count = 2;
  status = SubscriptionStatus.active;
  error_message = [];
}

abbrev row : WgInterface
row = record tunnel_row { active_node_id = some 2 }

abbrev store : State
store = record {
  faults = [];
  subs = sub ∷ [];
  next_sub = 2;
  nodes = old_node ∷ kept_node ∷ [];
  next_node = 3;
  interfaces = (7, (row, codes "key")) ∷ [];
  junction =
      record { id = 1; interface_id = 7; node_id = 2; position = 0 }
      ∷ record { id = 2; interface_id = 7; node_id = 1; position = 1 }
      ∷ [];
  next_junction = 3;
  log = record { max = 64; events = []; has_db = false; saved = [] };
  loops = [];
}

abbrev fetched : Text
fetched = codes "vless://c\r\nvless://b\n"

abbrev outside : Outside
outside = record {
  fetch = λ url. body fetched;
  raw_std = λ t. none;
  std = λ t. none;
  parse_uri = λ l. ok (node 0 l);
  quote = λ t. t;
  now = 100;
}

abbrev lines : List Text
lines = codes "vless://c" ∷ codes "vless://b" ∷ []

store-IsSound : IsSound store
unfolding find_node lookup
store-IsSound = (
  ground arith,
  (ground arith, (ground arith, tt)),
  (refl, tt),
  (refl, tt),
  ((refl, refl), ((refl, refl), tt)),
)

store-IsServed : IsServed outside 1 sub store fetched lines
unfolding find_sub decode_subscription_body first_lines split_lines replace_crlf split_on
    extract_vless trim_space trim_left trim_right is_space to_lower has_prefix text_beq
store-IsServed = (refl, refl, refl, refl, refl)

fetch_and_update-tunnel_bindings_example :
    Outcome
      (λ u t.
        tunnel_bindings 1 t.nodes t.junction
        ≡ keep_if
            (λ c. offers c.raw_uri (fetched_nodes outside 1 sub store fetched lines))
            (tunnel_bindings 1 store.nodes store.junction))
      (λ t. has_fault store.faults ≡ true)
      (fetch_and_update outside 1 store)
fetch_and_update-tunnel_bindings_example =
    fetch_and_update-tunnel_bindings outside 1 sub store fetched lines 1 store-IsServed
      store-IsSound

fetch_and_update-active_link_example :
    Outcome
      (λ u t.
        active_link t.nodes (lookup 7 t.interfaces)
        ≡ refreshed_uri 1
            (fetched_nodes outside 1 sub store fetched lines)
            row
            (active_node row store.nodes))
      (λ t. has_fault store.faults ≡ true)
      (fetch_and_update outside 1 store)
unfolding lookup
fetch_and_update-active_link_example =
    fetch_and_update-active_link outside 1 sub store fetched lines 7 row (codes "key")
      store-IsServed store-IsSound refl

fetch_and_update-IsSound_example :
    Outcome (λ u t. IsSound t) IsSound (fetch_and_update outside 1 store)
fetch_and_update-IsSound_example = fetch_and_update-IsSound outside 1 store store-IsSound

-- The client fails.
abbrev offline : Outside
offline = record outside { fetch = λ url. no_response (plain (codes "timeout")) }

fetch_and_update_unserved_example :
    Outcome
      (λ u t. ⊥)
      (λ t.
        (t.nodes ≡ store.nodes) × (t.interfaces ≡ store.interfaces) × (t.junction ≡ store.junction))
      (fetch_and_update offline 1 store)
unfolding find_sub trim_space trim_left trim_right is_space text_beq
fetch_and_update_unserved_example =
    fetch_and_update_unserved offline 1 sub (plain (codes "timeout")) store refl refl refl refl

exported-import_minimal_example :
    Outcome
      (λ u t. exported t.subs ≡ exported store.subs ++ exported (sub ∷ []))
      (λ t. has_fault store.faults ≡ true)
      (import_minimal outside (exported (sub ∷ [])) store)
exported-import_minimal_example =
    exported-import_minimal outside (sub ∷ []) store (refl, tt) store-IsSound

-- The same nodes, kept by hand.
abbrev manual_sub : Subscription
manual_sub = record sub { name = codes "__manual__" }

abbrev manual_store : State
manual_store = record store { subs = manual_sub ∷ [] }

add_manual_vless_node-Twinless_example :
    Outcome
      (λ n t. Twinless 1 t)
      (Twinless 1)
      (add_manual_vless_node outside (codes " vless://b") manual_store)
unfolding find_manual links contains trim_space trim_left trim_right is_space text_beq
add_manual_vless_node-Twinless_example =
    add_manual_vless_node-Twinless outside (codes " vless://b") manual_sub manual_store refl
      (refl, (refl, tt))

-- The tunnel's nodes in the other order.
assigned-set_nodes_example :
    Outcome
      (λ u t. assigned 7 t ≡ kept_node ∷ old_node ∷ [])
      (λ t. has_fault store.faults ≡ true)
      (set_nodes 7 (2 ∷ 1 ∷ []) store)
unfolding find_node lookup
assigned-set_nodes_example = assigned-set_nodes 7 (2 ∷ 1 ∷ []) store (refl, (refl, tt)) refl
