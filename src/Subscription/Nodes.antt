-- ===== src/Subscription/Nodes.antt =====
-- backend/internal/infrastructure/db/subscription_repo.go: the table vless_nodes, and what a refresh
-- writes back to the tables that refer to it.
use xray2wg.Base.{
  ℕ, suc, Bool, true, false, some, List, [], ◌∷◌, ◌++◌, Text, codes, nat_eq, ◌==◌, ◌&&◌, ◌||◌, not,
  if◌then◌else◌, any, keep_if, is_some, trim_space, lookup,
}
use xray2wg.Domain.{VlessNode}
use xray2wg.Domain.Errors.{sentinel, Sentinel, ok, err}
use xray2wg.Tunnel.Repo.{Rows}
use xray2wg.Subscription.State.{
  State, ActiveNodeBinding, TunnelNodeBinding, Op, ◌>>=◌, ◌>>◌, return, statement, transaction,
}
use xray2wg.Subscription.Repo.{foreign_key_failed, find_node, or_not_found, is_nat, first_by_uri}

abbrev pub or_text : Text → Text → Text
or_text d [] = d
or_text d (c ∷ s) = c ∷ s

-- jsonOrEmpty
pub json_or_empty : Text → Text
json_or_empty b = or_text (codes "{}") (trim_space b)

-- The row of a node; the defaults of its columns take the place of empty texts.
unfoldable pub stored_row : ℕ → VlessNode → VlessNode
stored_row id n = record n {
  id = id;
  encryption = or_text (codes "none") n.encryption;
  network = or_text (codes "tcp") n.network;
  transport_config = json_or_empty n.transport_config;
  security = or_text (codes "none") n.security;
  security_config = json_or_empty n.security_config;
}

unfoldable pub insert_node : VlessNode → Op VlessNode
unfolding statement stored_row
insert_node n = statement λ s. (
  ok (record n { id = s.next_node }),
  record s { nodes = s.nodes ++ (stored_row s.next_node n ∷ []); next_node = suc s.next_node },
)

unfoldable pub insert_each : List VlessNode → Op (List VlessNode)
unfolding insert_node
insert_each [] = return []
insert_each (n ∷ ns) = do m ← insert_node n; ms ← insert_each ns; return (m ∷ ms)

-- InsertNodes: the nodes with the ids that they are given.
unfoldable pub insert_nodes : List VlessNode → Op (List VlessNode)
unfolding transaction insert_each
insert_nodes ns = transaction (insert_each ns)

-- UPDATE wg_interfaces SET active_node_id = ? WHERE id = ? AND subscription_id = ?
unfoldable pub set_active : ℕ → ℕ → ℕ → Rows → Rows
set_active id sub node [] = []
set_active id sub node ((i, (w, key)) ∷ rows) =
    let rest = set_active id sub node rows in
    if (i == id) && is_nat sub w.subscription_id
    then (i, (record w { active_node_id = some node }, key)) ∷ rest
    else (i, (w, key)) ∷ rest

unfoldable pub remap_one : ℕ → List VlessNode → ActiveNodeBinding → Op Unit
unfolding statement set_active first_by_uri
remap_one sub fresh b =
    let node = first_by_uri (trim_space b.raw_uri) fresh in
    if node == 0
    then return tt
    else statement
        λ s. (ok tt, record s { interfaces = set_active b.interface_id sub node s.interfaces })

unfoldable pub remap_each : ℕ → List VlessNode → List ActiveNodeBinding → Op Unit
unfolding remap_one
remap_each sub fresh [] = return tt
remap_each sub fresh (b ∷ bs) = remap_one sub fresh b >> remap_each sub fresh bs

abbrev pub is_nil : {A : Type 0} → List A → Bool
is_nil [] = true
is_nil (x ∷ xs) = false

-- RemapActiveNodesAfterRefresh, which is no transaction.
unfoldable pub remap_active_nodes : ℕ → List ActiveNodeBinding → List VlessNode → Op Unit
unfolding remap_each
remap_active_nodes sub bs fresh =
    if is_nil bs || is_nil fresh then return tt else remap_each sub fresh bs

-- The row that restores a binding. Its foreign keys name a node and an interface.
unfoldable pub create_junction : TunnelNodeBinding → ℕ → Op Unit
unfolding statement find_node
create_junction b node = statement λ s.
    if is_some (find_node node s.nodes) && is_some (lookup b.interface_id s.interfaces)
    then (
      ok tt,
      record s {
        junction =
            s.junction
            ++ (record {
              id = s.next_junction;
              interface_id = b.interface_id;
              node_id = node;
              position = b.position;
            }
                ∷ []);
        next_junction = suc s.next_junction;
      },
    )
    else (err foreign_key_failed, s)

unfoldable pub restore_one : List VlessNode → TunnelNodeBinding → Op Unit
unfolding create_junction first_by_uri
restore_one fresh b =
    let node = first_by_uri (trim_space b.raw_uri) fresh in
    if node == 0 then return tt else create_junction b node

unfoldable pub restore_each : List VlessNode → List TunnelNodeBinding → Op Unit
unfolding restore_one
restore_each fresh [] = return tt
restore_each fresh (b ∷ bs) = restore_one fresh b >> restore_each fresh bs

-- RestoreTunnelNodesAfterRefresh
unfoldable pub restore_tunnel_nodes : List TunnelNodeBinding → List VlessNode → Op Unit
unfolding transaction restore_each
restore_tunnel_nodes bs fresh =
    if is_nil bs || is_nil fresh then return tt else transaction (restore_each fresh bs)

-- ListNodes
unfoldable pub list_nodes : ℕ → Op (List VlessNode)
unfolding statement
list_nodes sub = statement λ s. (ok (keep_if (λ n. n.subscription_id == sub) s.nodes), s)

-- ListAllNodes
pub list_all_nodes : Op (List VlessNode)
list_all_nodes = statement λ s. (ok s.nodes, s)

-- GetNode
unfoldable pub get_node : ℕ → Op VlessNode
unfolding statement find_node
get_node id = statement λ s. or_not_found (find_node id s.nodes) s

unfoldable pub users_of : ℕ → Rows → List ℕ
users_of node [] = []
users_of node ((i, (w, key)) ∷ rows) =
    let rest = users_of node rows in if is_nat node w.active_node_id then i ∷ rest else rest

-- FindTunnelIDsUsingNode
unfoldable pub find_tunnel_ids_using_node : ℕ → Op (List ℕ)
unfolding statement users_of
find_tunnel_ids_using_node node = statement λ s. (ok (users_of node s.interfaces), s)

-- The columns that UpdateNode writes.
unfoldable pub updated_row : VlessNode → VlessNode
updated_row n = record n {
  transport_config = json_or_empty n.transport_config;
  security_config = json_or_empty n.security_config;
}

unfoldable pub replace_node : VlessNode → List VlessNode → List VlessNode
replace_node x [] = []
replace_node x (n ∷ ns) = (if n.id == x.id then x else n) ∷ replace_node x ns

-- UpdateNode
unfoldable pub update_node : VlessNode → Op Unit
unfolding statement find_node replace_node updated_row
update_node n = statement λ s.
    if is_some (find_node n.id s.nodes)
    then (ok tt, record s { nodes = replace_node (updated_row n) s.nodes })
    else (err (sentinel Sentinel.not_found), s)

-- Whether an active node or a row of tunnel_nodes refers to a node.
unfoldable pub is_referenced : ℕ → State → Bool
unfolding users_of
is_referenced node s =
    not (is_nil (users_of node s.interfaces)) || any (λ t. t.node_id == node) s.junction

-- DeleteNode
unfoldable pub delete_node : ℕ → Op Unit
unfolding statement find_node is_referenced
delete_node id = statement λ s.
    if not (is_some (find_node id s.nodes))
    then (err (sentinel Sentinel.not_found), s)
    else if is_referenced id s
    then (err foreign_key_failed, s)
    else (ok tt, record s { nodes = keep_if (λ n. not (n.id == id)) s.nodes })
