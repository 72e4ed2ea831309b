-- ===== src/Tunnel/Put.antt =====
-- backend/internal/app/tunnel_merge.go, tunnels.go and UpdateTunnel of tunnels_api.go: the PUT of a
-- tunnel's metadata over its row. `incoming.id` is set from the path.
pub mod Lifecycle
use xray2wg.Base.{
  ℕ, Bool, true, false, Option, none, some, Text, codes, text_eq, nat_eq, ◌==◌, ◌&&◌, not, is_empty,
  trim_space, if◌then◌else◌,
}
use xray2wg.Domain.{WgInterface}
use xray2wg.Domain.Errors.{GoError, domain, ErrorCode, Result, ok, err}
use xray2wg.Tunnel.Repo.{Rows, get_by_id, update, clear_active_node_id}
use xray2wg.Tunnel.World.{Env, gateway_host}

-- PreserveTunnelLifecycleOnMetadataUpdate
unfoldable pub preserve_lifecycle : WgInterface → WgInterface → WgInterface
preserve_lifecycle existing incoming = record incoming {
  status = existing.status;
  error_message = existing.error_message;
  uptime_started = existing.uptime_started;
}

-- `if incSub == nil { incSub = existing.SubscriptionID }`
abbrev pub or_existing : Option ℕ → Option ℕ → Option ℕ
or_existing none old = old
or_existing (some s) old = some s

-- Both are set, and alike.
abbrev pub both_set_alike : Option ℕ → Option ℕ → Bool
both_set_alike (some a) (some b) = a == b
both_set_alike _ _ = false

abbrev pub both_set_unlike : Option ℕ → Option ℕ → Bool
both_set_unlike (some a) (some b) = not (a == b)
both_set_unlike _ _ = false

-- PreserveTunnelUpdateBindings
unfoldable pub preserve_bindings : WgInterface → WgInterface → WgInterface
preserve_bindings existing incoming = elim incoming.active_node_id [
  | some n ↦ incoming
  | none ↦
      if both_set_alike existing.subscription_id
        (or_existing incoming.subscription_id existing.subscription_id)
      then record incoming { active_node_id = existing.active_node_id }
      else incoming
]

abbrev pub is_unset : Option ℕ → Bool
is_unset none = true
is_unset (some n) = false

-- PrepareTunnelPUT: the merged body, or the error. The Boolean is IsRunning's answer.
unfoldable pub prepare_tunnel_put :
    Bool → Option Text → ℕ → WgInterface → WgInterface → Rows → Result WgInterface × Rows
prepare_tunnel_put running fault id existing incoming rows =
    if running && not (is_empty incoming.name) && not (incoming.name == existing.name)
    then (err (domain ErrorCode.validation (codes "cannot change tunnel name while running")), rows)
    else (let merged = preserve_lifecycle existing (preserve_bindings existing incoming) in
        if both_set_unlike existing.subscription_id merged.subscription_id
          && is_unset merged.active_node_id
        then (let (e, rows') = clear_active_node_id fault id rows in
            elim e [ some e ↦ (err e, rows') | none ↦ (ok merged, rows') ])
        else (ok merged, rows))

-- `if strings.TrimSpace(iface.DNS) == ""`: the default DNS is the tunnel's own address.
unfoldable pub with_dns : Env → WgInterface → WgInterface
with_dns env iface =
    if is_empty (trim_space iface.dns)
    then elim (gateway_host env iface.wg_address) [
      | err e ↦ iface
      | ok gw ↦ record iface { dns = gw }
    ]
    else iface

-- UpdateTunnel; the second fault is the one of ClearActiveNodeID.
unfoldable pub update_tunnel : Env → Option Text → Bool → WgInterface → Rows → Option GoError × Rows
update_tunnel env clear_fault running incoming rows =
    elim (get_by_id env.get_fault incoming.id rows) [
      | err e ↦ (some e, rows)
      | ok r ↦
          (let (merged, rows') =
              prepare_tunnel_put running clear_fault incoming.id r.0 incoming rows in
            elim merged [
              | err e ↦ (some e, rows')
              | ok iface ↦ update env.update_fault (with_dns env iface) rows'
            ])
    ]
