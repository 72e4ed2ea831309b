-- ===== src/Subscription/Manual.antt =====
-- backend/internal/service/subscription.go: the nodes that the administrator keeps by hand, under the
-- subscription `__manual__`. vless.Build's answer to a structured input is an argument.
use xray2wg.Base.{
  ℕ, Bool, true, false, List, [], ◌∷◌, Text, text_eq, nat_eq, ◌==◌, ◌&&◌, not, if◌then◌else◌,
  is_empty, trim_space, length,
}
use xray2wg.Base.Int.{ℤ}
use xray2wg.Domain.{VlessNode}
use xray2wg.Domain.Errors.{sentinel, Sentinel, Result, ok, err}
use xray2wg.Subscription.State.{Subscription, SubscriptionStatus, Op, ◌>>=◌, ◌>>◌, return, fail}
use xray2wg.Subscription.Repo.{get_sub, list_subs, update_sub}
use xray2wg.Subscription.Nodes.{
  is_nil, insert_nodes, list_nodes, get_node, find_tunnel_ids_using_node, update_node, delete_node,
}
use xray2wg.Subscription.Service.{Outside, is_manual, ensure_manual, add_sub}

-- syncManualSubscriptionMeta
unfoldable pub sync_manual_meta : ℕ → Op Unit
unfolding list_nodes get_sub update_sub
sync_manual_meta manual = do
  nodes ← list_nodes manual
  x ← get_sub manual
  update_sub (record x {
    node_count = length nodes;
    status = SubscriptionStatus.active;
    error_message = [];
  })

-- `err` of a parser or of Build.
abbrev pub lift : {A : Type 0} → Result A → Op A
lift (ok a) = return a
lift (err e) = fail e

-- Whether one of the nodes, `skip` apart, has the link of another.
unfoldable pub has_link : (VlessNode → Bool) → Text → List VlessNode → Bool
unfolding trim_space
has_link skip key [] = false
has_link skip key (e ∷ es) =
    if not (skip e) && (trim_space e.raw_uri == key) then true else has_link skip key es

-- The node that InsertNodes was given, with its id.
abbrev pub only : List VlessNode → VlessNode → VlessNode
only [] n = n
only (m ∷ ms) n = m

-- What both ways to add a node end with.
unfoldable pub add_node : ℕ → VlessNode → Op VlessNode
unfolding list_nodes has_link insert_nodes sync_manual_meta
add_node manual node = do
  let n = record node { subscription_id = manual }
  existing ← list_nodes manual
  if has_link (λ e. false) (trim_space n.raw_uri) existing
      then fail (sentinel Sentinel.conflict)
      else do ms ← insert_nodes (n ∷ []); sync_manual_meta manual; return (only ms n)

-- AddManualVlessNode
unfoldable pub add_manual_vless_node : Outside → Text → Op VlessNode
unfolding ensure_manual add_node
add_manual_vless_node out text =
    let raw = trim_space text in
    if is_empty raw
    then fail (sentinel Sentinel.validation)
    else do manual ← ensure_manual; node ← lift (out.parse_uri raw); add_node manual node

-- AddManualNodeStructured
unfoldable pub add_manual_node_structured : Result VlessNode → Op VlessNode
unfolding ensure_manual add_node
add_manual_node_structured built = do
  node ← lift built
  manual ← ensure_manual
  add_node manual node

-- What both ways to change a node do once its new form is read.
unfoldable pub change_node : ℕ → ℕ → VlessNode → Op VlessNode
unfolding list_nodes has_link update_node sync_manual_meta get_node
change_node manual id node = do
  let n = record node { subscription_id = manual; id = id }
  others ← list_nodes manual
  if has_link (λ e. e.id == id) (trim_space n.raw_uri) others
      then fail (sentinel Sentinel.conflict)
      else do update_node n; sync_manual_meta manual; get_node id

-- UpdateManualNodeStructured
unfoldable pub update_manual_node_structured : ℕ → Result VlessNode → Op VlessNode
unfolding ensure_manual get_node change_node
update_manual_node_structured id built = do
  manual ← ensure_manual
  old ← get_node id
  if not (old.subscription_id == manual)
      then fail (sentinel Sentinel.not_found)
      else do node ← lift built; change_node manual id node

-- UpdateManualVlessNode
unfoldable pub update_manual_vless_node : Outside → ℕ → Text → Op VlessNode
unfolding update_manual_node_structured
update_manual_vless_node out id text =
    let raw = trim_space text in
    if is_empty raw
    then fail (sentinel Sentinel.validation)
    else update_manual_node_structured id (out.parse_uri raw)

-- DeleteManualVlessNode
unfoldable pub delete_manual_vless_node : ℕ → Op Unit
unfolding ensure_manual get_node find_tunnel_ids_using_node delete_node sync_manual_meta
delete_manual_vless_node id = do
  manual ← ensure_manual
  old ← get_node id
  if not (old.subscription_id == manual) then fail (sentinel Sentinel.not_found) else do
    users ← find_tunnel_ids_using_node id
    if not (is_nil users)
        then fail (sentinel Sentinel.node_in_use)
        else do delete_node id; sync_manual_meta manual

-- What ExportMinimal keeps of a subscription; the text is JSON's.
pub record Exported : Type 0 where
  pub name : Text
  pub url : Text
  pub refresh_interval : ℤ

unfoldable pub exported : List Subscription → List Exported
exported [] = []
exported (x ∷ xs) =
    let rest = exported xs in
    if is_manual x
    then rest
    else record { name = x.name; url = x.url; refresh_interval = x.refresh_interval } ∷ rest

-- ExportMinimal
unfoldable pub export_minimal : Op (List Exported)
unfolding list_subs exported
export_minimal = do subs ← list_subs; return (exported subs)

-- ImportMinimal
unfoldable pub import_minimal : Outside → List Exported → Op Unit
unfolding add_sub
import_minimal out [] = return tt
import_minimal out (x ∷ xs) = add_sub out x.name x.url x.refresh_interval >> import_minimal out xs
