-- ===== src/Subscription/Repo.antt =====
-- backend/internal/infrastructure/db/subscription_repo.go. Each statement of SQL is one step, which
-- the database may refuse; its foreign keys are enforced, as sqlite.go asks for.
use xray2wg.Base.{
  ℕ, suc, Bool, false, Option, none, some, List, [], ◌∷◌, ◌++◌, Text, codes, text_eq, nat_eq, ◌==◌,
  ◌||◌, not, if◌then◌else◌, keep_if, is_empty, is_some, trim_space,
}
use xray2wg.Base.Int.{ℤ, pos}
use xray2wg.Domain.{WgInterface, VlessNode}
use xray2wg.Domain.Errors.{GoError, sentinel, Sentinel, plain, ok, err}
use xray2wg.Tunnel.Repo.{Rows}
use xray2wg.Subscription.State.{
  Subscription, SubscriptionStatus, ActiveNodeBinding, TunnelNodeBinding, TunnelNode, Op, ◌>>◌,
  return, fail, statement, transaction,
}

-- What SQLite answers where a foreign key has no row to refer to, or a row that is referred to is
-- deleted.
abbrev pub foreign_key_failed : GoError
foreign_key_failed = plain (codes "FOREIGN KEY constraint failed")

-- The row of an id.
unfoldable pub find_node : ℕ → List VlessNode → Option VlessNode
find_node id [] = none
find_node id (n ∷ ns) = if n.id == id then some n else find_node id ns

unfoldable pub find_sub : ℕ → List Subscription → Option Subscription
find_sub id [] = none
find_sub id (s ∷ ss) = if s.id == id then some s else find_sub id ss

abbrev pub or_not_found : {A : Type 0} → Option A → Op A
or_not_found none = fail (sentinel Sentinel.not_found)
or_not_found (some a) = return a

-- The default of the column takes the place of a zero.
abbrev pub or_interval : ℤ → ℤ
or_interval (pos ℕ.zero) = pos 3600
or_interval z = z

-- Create: the row, and the id that it was given.
unfoldable pub create_sub : Text → Text → ℤ → Op ℕ
unfolding statement
create_sub name url interval = statement λ s. (
  ok s.next_sub,
  record s {
    subs =
        s.subs
        ++ (record {
          id = s.next_sub;
          name = name;
          url = url;
          refresh_interval = or_interval interval;
          last_fetched_at = none;
          node_count = 0;
          status = SubscriptionStatus.inactive;
          error_message = [];
        }
            ∷ []);
    next_sub = suc s.next_sub;
  },
)

-- GetByID
unfoldable pub get_sub : ℕ → Op Subscription
unfolding statement find_sub
get_sub id = statement λ s. or_not_found (find_sub id s.subs) s

-- List
unfoldable pub list_subs : Op (List Subscription)
unfolding statement
list_subs = statement λ s. (ok s.subs, s)

-- The row of an id, which is the primary key, written anew.
unfoldable pub replace_sub : Subscription → List Subscription → List Subscription
replace_sub x [] = []
replace_sub x (s ∷ ss) = if s.id == x.id then x ∷ ss else s ∷ replace_sub x ss

-- Update, which writes every column but the id and the time of creation.
unfoldable pub update_sub : Subscription → Op Unit
unfolding statement find_sub replace_sub
update_sub x = statement λ s.
    if is_some (find_sub x.id s.subs)
    then (ok tt, record s { subs = replace_sub x s.subs })
    else (err (sentinel Sentinel.not_found), s)

-- Whether wg_interfaces.subscription_id refers to a subscription.
unfoldable pub is_subscribed : ℕ → Rows → Bool
is_subscribed id [] = false
is_subscribed id ((i, (w, key)) ∷ rows) =
    elim w.subscription_id [ none ↦ false | some j ↦ j == id ] || is_subscribed id rows

-- Delete
unfoldable pub delete_sub : ℕ → Op Unit
unfolding statement find_sub is_subscribed
delete_sub id = statement λ s.
    if not (is_some (find_sub id s.subs))
    then (err (sentinel Sentinel.not_found), s)
    else if is_subscribed id s.interfaces
    then (err foreign_key_failed, s)
    else (ok tt, record s { subs = keep_if (λ x. not (x.id == id)) s.subs })

-- `id IN (SELECT id FROM vless_nodes WHERE subscription_id = ?)`
unfoldable pub is_node_of : ℕ → List VlessNode → ℕ → Bool
unfolding find_node
is_node_of sub nodes id = elim (find_node id nodes) [
  | none ↦ false
  | some n ↦ n.subscription_id == sub
]

abbrev pub unless : {A : Type 0} → (A → Bool) → Option A → Option A
unless p none = none
unless p (some a) = if p a then none else some a

-- UPDATE wg_interfaces SET active_node_id = NULL WHERE the active node is one of these.
unfoldable pub clear_active : (ℕ → Bool) → Rows → Rows
clear_active p [] = []
clear_active p ((i, (w, key)) ∷ rows) =
    (i, (record w { active_node_id = unless p w.active_node_id }, key)) ∷ clear_active p rows

-- The statements of DeleteNodes.
abbrev pub forget_active : ℕ → Op Unit
forget_active sub s =
    (ok tt, record s { interfaces = clear_active (is_node_of sub s.nodes) s.interfaces })

abbrev pub forget_junction : ℕ → Op Unit
forget_junction sub s = (
  ok tt,
  record s { junction = keep_if (λ t. not (is_node_of sub s.nodes t.node_id)) s.junction },
)

abbrev pub forget_nodes : ℕ → Op Unit
forget_nodes sub s =
    (ok tt, record s { nodes = keep_if (λ n. not (n.subscription_id == sub)) s.nodes })

-- DeleteNodes: what refers to the nodes goes first, so that no foreign key is left to fail.
unfoldable pub delete_nodes : ℕ → Op Unit
unfolding transaction statement clear_active is_node_of
delete_nodes sub =
    transaction do
      statement (forget_active sub)
      statement (forget_junction sub)
      statement (forget_nodes sub)

abbrev pub is_nat : ℕ → Option ℕ → Bool
is_nat n none = false
is_nat n (some m) = m == n

-- The row of the join of an interface with its active node.
abbrev pub active_row : ℕ → Option VlessNode → List ActiveNodeBinding
active_row i none = []
active_row i (some n) = record { interface_id = i; raw_uri = trim_space n.raw_uri } ∷ []

abbrev pub active_node_of : Option ℕ → List VlessNode → Option VlessNode
active_node_of none nodes = none
active_node_of (some id) nodes = find_node id nodes

abbrev pub active_node : WgInterface → List VlessNode → Option VlessNode
active_node w nodes = active_node_of w.active_node_id nodes

unfoldable pub active_bindings : ℕ → List VlessNode → Rows → List ActiveNodeBinding
unfolding find_node trim_space
active_bindings sub nodes [] = []
active_bindings sub nodes ((i, (w, key)) ∷ rows) =
    let rest = active_bindings sub nodes rows in
    if is_nat sub w.subscription_id then active_row i (active_node w nodes) ++ rest else rest

-- SnapshotActiveNodesForSubscription
unfoldable pub snapshot_active_nodes : ℕ → Op (List ActiveNodeBinding)
unfolding statement active_bindings
snapshot_active_nodes sub = statement λ s. (ok (active_bindings sub s.nodes s.interfaces), s)

-- The row of the join of a row of tunnel_nodes with its node.
abbrev pub junction_row : ℕ → TunnelNode → Option VlessNode → List TunnelNodeBinding
junction_row sub t none = []
junction_row sub t (some n) =
    if n.subscription_id == sub
    then record {
      interface_id = t.interface_id;
      raw_uri = trim_space n.raw_uri;
      position = t.position;
    }
      ∷ []
    else []

unfoldable pub tunnel_bindings : ℕ → List VlessNode → List TunnelNode → List TunnelNodeBinding
unfolding find_node trim_space
tunnel_bindings sub nodes [] = []
tunnel_bindings sub nodes (t ∷ ts) =
    junction_row sub t (find_node t.node_id nodes) ++ tunnel_bindings sub nodes ts

-- SnapshotTunnelNodesForSubscription
unfoldable pub snapshot_tunnel_nodes : ℕ → Op (List TunnelNodeBinding)
unfolding statement tunnel_bindings
snapshot_tunnel_nodes sub = statement λ s. (ok (tunnel_bindings sub s.nodes s.junction), s)

-- `firstByURI[uri]`: the map that the two loops fill, read at one key; 0 where it has none.
unfoldable pub first_by_uri : Text → List VlessNode → ℕ
unfolding trim_space
first_by_uri uri [] = 0
first_by_uri uri (n ∷ ns) =
    let rest = first_by_uri uri ns in
    if n.id == 0 || is_empty (trim_space n.raw_uri)
    then rest
    else if trim_space n.raw_uri == uri
    then n.id
    else rest
