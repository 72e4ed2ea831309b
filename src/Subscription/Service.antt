-- ===== src/Subscription/Service.antt =====
-- backend/internal/service/subscription.go: the subscription service. Fetching over HTTP, base64,
-- the parser of share links, the quoting of `%q` and the clock are arguments.
use xray2wg.Base.{
  ℕ, Bool, Option, none, some, List, [], ◌∷◌, ◌++◌, Text, codes, text_eq, nat_eq, ◌==◌,
  if◌then◌else◌, is_empty, trim_space, length, remove, add,
}
use xray2wg.Base.Int.{ℤ, pos, leb_ℤ}
use xray2wg.Domain.{VlessNode}
use xray2wg.Domain.Errors.{GoError, sentinel, Sentinel, error_text, Result, ok, err}
use xray2wg.EventLog
use xray2wg.Subscription.State.{
  State, Subscription, SubscriptionStatus, ActiveNodeBinding, TunnelNodeBinding, Op, ◌>>=◌, ◌>>◌,
  return, fail, ignore,
}
use xray2wg.Subscription.Repo.{
  create_sub, get_sub, list_subs, update_sub, delete_sub, delete_nodes, snapshot_active_nodes,
  snapshot_tunnel_nodes,
}
use xray2wg.Subscription.Nodes.{insert_nodes, remap_active_nodes, restore_tunnel_nodes}
use xray2wg.Subscription.Decode.{decode_subscription_body}

-- How far a GET of the body comes: no request is made of the URL, the client fails, the body breaks
-- off, or its first ten mebibytes are read.
pub data Fetched : Type 0 where
  no_request no_response no_body : GoError → Fetched
  body : Text → Fetched

pub record Outside : Type 0 where
  pub fetch : Text → Fetched
  pub raw_std : Text → Option Text
  pub std : Text → Option Text
  pub parse_uri : Text → Result VlessNode
  pub quote : Text → Text
  pub now : ℕ

abbrev pub manual_name : Text
manual_name = codes "__manual__"

abbrev pub is_manual : Subscription → Bool
is_manual s = s.name == manual_name

unfoldable pub find_manual : List Subscription → Option Subscription
find_manual [] = none
find_manual (s ∷ ss) = if is_manual s then some s else find_manual ss

-- EnsureManual
unfoldable pub ensure_manual : Op ℕ
unfolding list_subs create_sub find_manual
ensure_manual = do
  subs ← list_subs
  elim (find_manual subs) [ none ↦ create_sub manual_name [] (pos 86400) | some x ↦ return x.id ]

-- `s.log.Add`
unfoldable pub write_log : Outside → Text → Text → Op Unit
write_log out level msg s = (ok tt, record s { log = EventLog.add out.now level msg s.log })

-- The subscription after a fetch that failed with a text; its status changes if it has no nodes.
abbrev pub failed_sub : Text → Subscription → Subscription
failed_sub msg x = record x {
  error_message = msg;
  status = if x.node_count == 0 then SubscriptionStatus.error else x.status;
}

-- Both ways in which FetchAndUpdate records a failure.
unfoldable pub record_failure : Outside → Text → GoError → Subscription → Op Unit
unfolding write_log update_sub
record_failure out what e x = do
  write_log out (codes "warn") (codes "subscription " ++ out.quote x.name ++ what ++ error_text e)
  ignore (update_sub (failed_sub (error_text e) x))
  fail e

-- The nodes of the lines that parse.
unfoldable pub parse_lines : Outside → ℕ → List Text → List VlessNode
parse_lines out sub [] = []
parse_lines out sub (l ∷ ls) =
    let rest = parse_lines out sub ls in
    elim (out.parse_uri l) [ err e ↦ rest | ok n ↦ record n { subscription_id = sub } ∷ rest ]

-- `if len(nodes) > 0 { … }`
unfoldable pub bring_in :
    ℕ → List VlessNode → List ActiveNodeBinding → List TunnelNodeBinding → Op Unit
unfolding insert_nodes remap_active_nodes restore_tunnel_nodes
bring_in sub [] actives tunnels = return tt
bring_in sub (n ∷ ns) actives tunnels = do
  fresh ← insert_nodes (n ∷ ns)
  remap_active_nodes sub actives fresh
  restore_tunnel_nodes tunnels fresh

-- The nodes of a subscription are exchanged for those that were fetched.
unfoldable pub exchange_nodes : ℕ → List VlessNode → Op Unit
unfolding snapshot_active_nodes snapshot_tunnel_nodes delete_nodes bring_in
exchange_nodes sub nodes = do
  actives ← snapshot_active_nodes sub
  tunnels ← snapshot_tunnel_nodes sub
  delete_nodes sub
  bring_in sub nodes actives tunnels

unfoldable pub take_lines : Outside → Subscription → ℕ → List Text → Op Unit
unfolding parse_lines exchange_nodes update_sub
take_lines out x sub ls = do
  let nodes = parse_lines out sub ls
  exchange_nodes sub nodes
  update_sub (record x {
    last_fetched_at = some out.now;
    node_count = length nodes;
    status = SubscriptionStatus.active;
    error_message = [];
  })

unfoldable pub take_body : Outside → Subscription → ℕ → Fetched → Op Unit
unfolding take_lines decode_subscription_body record_failure
take_body out x sub (no_request e) = fail e
take_body out x sub (no_response e) = record_failure out (codes " fetch failed: ") e x
take_body out x sub (no_body e) = fail e
take_body out x sub (body b) = elim (decode_subscription_body out.raw_std out.std b) [
  | err e ↦ record_failure out (codes " decode failed: ") e x
  | ok ls ↦ take_lines out x sub ls
]

-- FetchAndUpdate
unfoldable pub fetch_and_update : Outside → ℕ → Op Unit
unfolding get_sub take_body
fetch_and_update out id = do
  x ← get_sub id
  if is_manual x
      then return tt
      else if is_empty (trim_space x.url)
      then fail (sentinel Sentinel.validation)
      else take_body out x id (out.fetch x.url)

-- StartRefreshLoop and StopRefreshLoop: at most one loop of a subscription is not cancelled.
unfoldable pub start_refresh_loop : ℕ → Op Unit
start_refresh_loop id s = (ok tt, record s { loops = add id s.loops })

unfoldable pub stop_refresh_loop : ℕ → Op Unit
stop_refresh_loop id s = (ok tt, record s { loops = remove id s.loops })

-- A failure of the first fetch is logged only.
abbrev pub logged : Outside → Text → Result {0} Unit × State → Result {0} Unit × State
logged out name (ok a, s) = (ok tt, s)
logged out name (err e, s) =
    write_log out (codes "warning")
      (codes "subscription " ++ name ++ codes " initial fetch: " ++ error_text e) s

-- Add: the id of the new subscription.
unfoldable pub add_sub : Outside → Text → Text → ℤ → Op ℕ
unfolding create_sub fetch_and_update start_refresh_loop write_log
add_sub out name url interval = do
  id ← create_sub name url (if leb_ℤ interval (pos 0) then pos 3600 else interval)
  λ s. logged out name (fetch_and_update out id s)
  start_refresh_loop id
  return id

-- Delete of app/subscriptions_api.go
unfoldable pub delete_subscription : ℕ → Op Unit
unfolding stop_refresh_loop delete_sub
delete_subscription id = do stop_refresh_loop id; delete_sub id
