-- ===== src/Tunnel/Put/Lifecycle.antt =====
-- What a PUT of the metadata leaves in the row.
use xray2wg.Base.{
  ℕ, Bool, true, false, Option, none, some, Text, text_eq, nat_eq, ◌==◌, ◌&&◌, not, is_empty,
  if◌then◌else◌, ◌≡◌, refl, arith, lookup, Option-cases, Bool-cases, inl, inr, ◌⊎◌, ◌∙◌, ap,
}
use xray2wg.Domain.{WgInterface}
use xray2wg.Domain.Errors.{ok, Result-cases}
use xray2wg.Tunnel.Repo.{
  Rows, get_by_id, get_by_id-ok, update, clear_active_node_id, merge, or_else,
  lookup-clear_active_node_id, clear_active_node_id-ok, update-ok,
}
use xray2wg.Tunnel.World.{Env, gateway_host}
use xray2wg.Tunnel.Put.{
  preserve_lifecycle, preserve_bindings, both_set_unlike, is_unset, prepare_tunnel_put, with_dns,
  update_tunnel,
}

-- The active node after a PUT: the body's, if it names one; none, if the body moves the tunnel to
-- another subscription; else the one there was.
abbrev pub next_active_node : WgInterface → WgInterface → Option ℕ
next_active_node old incoming = or_else incoming.active_node_id (
    if both_set_unlike old.subscription_id incoming.subscription_id
    then none
    else old.active_node_id)

-- The columns that a PUT keeps, whatever the body says.
abbrev pub SameLifecycle : WgInterface → WgInterface → Type 0
SameLifecycle old new =
    (new.status ≡ old.status)
    × (new.error_message ≡ old.error_message)
    × (new.uptime_started ≡ old.uptime_started)
    × (new.public_key ≡ old.public_key)

-- The columns that the body replaces, also those that Start computes: the interface name, the port
-- of Xray and the mark of its packets.
abbrev pub FromBody : WgInterface → WgInterface → Type 0
FromBody incoming new =
    (new.name ≡ incoming.name)
    × (new.listen_port ≡ incoming.listen_port)
    × (new.wg_address ≡ incoming.wg_address)
    × (new.subscription_id ≡ incoming.subscription_id)
    × (new.tun_name ≡ incoming.tun_name)
    × (new.xray_port ≡ incoming.xray_port)
    × (new.fwmark ≡ incoming.fwmark)

-- What the merged body m and the row mid make of the old row.
abbrev IsMerged : WgInterface → WgInterface → WgInterface → WgInterface → Type 0
IsMerged old incoming m mid =
    (m.id ≡ incoming.id)
    × (mid.public_key ≡ old.public_key)
    × (m.status ≡ old.status)
    × (m.error_message ≡ old.error_message)
    × (m.uptime_started ≡ old.uptime_started)
    × (or_else m.active_node_id mid.active_node_id ≡ next_active_node old incoming)
    × FromBody incoming m

-- The body is refused a new name while the tunnel runs.
abbrev pub renames : Bool → WgInterface → WgInterface → Bool
renames running old incoming =
    running && not (is_empty incoming.name) && not (incoming.name == old.name)

merged_same :
    (old incoming : WgInterface)
    → let m = preserve_lifecycle old (preserve_bindings old incoming) in
      (m.id ≡ incoming.id)
      × (m.status ≡ old.status)
      × (m.error_message ≡ old.error_message)
      × (m.uptime_started ≡ old.uptime_started)
      × (m.subscription_id ≡ incoming.subscription_id)
unfolding preserve_lifecycle preserve_bindings
merged_same old incoming = ground (arith, Option-cases incoming.active_node_id)

merged_active :
    (old incoming : WgInterface)
    → let m = preserve_lifecycle old (preserve_bindings old incoming) in
      (both_set_unlike old.subscription_id m.subscription_id && is_unset m.active_node_id ≡ true
        → or_else m.active_node_id none ≡ next_active_node old incoming)
      × (both_set_unlike old.subscription_id m.subscription_id && is_unset m.active_node_id ≡ false
          → or_else m.active_node_id old.active_node_id ≡ next_active_node old incoming)
unfolding preserve_lifecycle preserve_bindings
merged_active old incoming = ground (
  arith,
  Option-cases incoming.active_node_id,
  Option-cases incoming.subscription_id,
  Option-cases old.subscription_id,
)

abbrev merged_body : WgInterface → WgInterface → WgInterface
merged_body old incoming = preserve_lifecycle old (preserve_bindings old incoming)

merged_body-FromBody : (old incoming : WgInterface) → FromBody incoming (merged_body old incoming)
unfolding preserve_lifecycle preserve_bindings
merged_body-FromBody old incoming = ground (arith, Option-cases incoming.active_node_id)

with_dns-FromBody :
    (env : Env) (incoming m : WgInterface)
    → FromBody incoming m
    → FromBody incoming (with_dns env m)
unfolding with_dns
with_dns-FromBody env incoming m h = ground (arith, Result-cases (gateway_host env m.wg_address))

abbrev clears : WgInterface → WgInterface → Bool
clears old incoming =
    both_set_unlike old.subscription_id (merged_body old incoming).subscription_id
    && is_unset (merged_body old incoming).active_node_id

prepare-cases :
    (running : Bool) (fault : Option Text) (old incoming m : WgInterface) (rows rows' : Rows)
    → prepare_tunnel_put running fault incoming.id old incoming rows ≡ (ok m, rows')
    → (renames running old incoming ≡ false)
      × (m ≡ merged_body old incoming)
      × (((clears old incoming ≡ true)
            × ((clear_active_node_id fault incoming.id rows).0 ≡ none)
            × (rows' ≡ (clear_active_node_id fault incoming.id rows).1))
          ⊎ ((clears old incoming ≡ false) × (rows' ≡ rows)))
unfolding prepare_tunnel_put
prepare-cases running fault old incoming m rows rows' h = ground (
  arith,
  Bool-cases (renames running old incoming),
  Bool-cases (clears old incoming),
  Option-cases (clear_active_node_id fault incoming.id rows).0,
)

-- A merged body that is accepted: no new name while running, and the row is as before, or without
-- its active node.
prepare-ok :
    (running : Bool) (fault : Option Text) (old incoming m : WgInterface) (key : Text)
    (rows rows' : Rows)
    → lookup incoming.id rows ≡ some (old, key)
    → prepare_tunnel_put running fault incoming.id old incoming rows ≡ (ok m, rows')
    → (renames running old incoming ≡ false)
      × ((mid : WgInterface) × (lookup incoming.id rows' ≡ some (mid, key))
          × IsMerged old incoming m mid)
prepare-ok running fault old incoming m key rows rows' found h =
    let (kept, is_m, what) = prepare-cases running fault old incoming m rows rows' h in
    let (cleared, uncleared) = merged_active old incoming in
    let (i, st, msg, up, sub) = merged_same old incoming in
    (
      kept,
      elim what [
        | inl (c, fine, is_rows) ↦ (
          record old { active_node_id = none },
          rw (is_rows, clear_active_node_id-ok fault incoming.id rows fine)
              (lookup-clear_active_node_id incoming.id old key rows found),
          rw (is_m) (i, refl, st, msg, up, cleared c, merged_body-FromBody old incoming),
        )
        | inr (c, is_rows) ↦ (
          old,
          rw (is_rows) found,
          rw (is_m) (i, refl, st, msg, up, uncleared c, merged_body-FromBody old incoming),
        )
      ],
    )

with_dns-same :
    (env : Env) (m : WgInterface)
    → let m' = with_dns env m in
      (m'.id ≡ m.id)
      × (m'.status ≡ m.status)
      × (m'.error_message ≡ m.error_message)
      × (m'.uptime_started ≡ m.uptime_started)
      × (m'.active_node_id ≡ m.active_node_id)
unfolding with_dns
with_dns-same env m = ground (arith, Result-cases (gateway_host env m.wg_address))

-- What the last three steps of a PUT make of the row.
put_row :
    (env : Env) (fault : Option Text) (running : Bool) (incoming old m : WgInterface) (key : Text)
    (rows rows1 rows' : Rows)
    → lookup incoming.id rows ≡ some (old, key)
    → prepare_tunnel_put running fault incoming.id old incoming rows ≡ (ok m, rows1)
    → update env.update_fault (with_dns env m) rows1 ≡ (none, rows')
    → (new : WgInterface) × (lookup incoming.id rows' ≡ some (new, key))
      × (renames running old incoming ≡ false)
      × SameLifecycle old new
      × (new.active_node_id ≡ next_active_node old incoming)
      × FromBody incoming new
unfolding merge
put_row env fault running incoming old m key rows rows1 rows' found prepared updated =
    let (kept, merged) = prepare-ok running fault old incoming m key rows rows1 found prepared in
    let (mid, mid_found, is_merged) = merged in
    let (i, public_key, st, msg, up, active, body) = is_merged in
    let (i', st', msg', up', active') = with_dns-same env m in
    let new = merge mid (with_dns env m) in
    (
      new,
      update-ok env.update_fault (with_dns env m) mid incoming.id key rows1 rows' (i' ∙ i) mid_found
          updated,
      kept,
      (st' ∙ st, msg' ∙ msg, up' ∙ up, public_key),
      ap (λ a. or_else a mid.active_node_id) active' ∙ active,
      with_dns-FromBody env incoming m body,
    )

-- A PUT of a tunnel's metadata that succeeds found the row; where the tunnel was running, the body's
-- name was the old one or empty. In the row that it leaves, status, error message, start time and
-- public key are as before, and the active node is the one of the body, if it has one, none, if the
-- body has another subscription, and otherwise the one that was there. The name (an empty one too),
-- the listen port, the address, the subscription, the interface name, Xray's port and the mark of its
-- packets are those of the body.
pub update_tunnel-ok :
    (env : Env) (fault : Option Text) (running : Bool) (incoming : WgInterface) (rows rows' : Rows)
    → update_tunnel env fault running incoming rows ≡ (none, rows')
    → (old : WgInterface) × (key : Text) × (new : WgInterface) × (lookup incoming.id rows
        ≡ some (old, key))
      × (lookup incoming.id rows' ≡ some (new, key))
      × (renames running old incoming ≡ false)
      × SameLifecycle old new
      × (new.active_node_id ≡ next_active_node old incoming)
      × FromBody incoming new
unfolding update_tunnel
update_tunnel-ok env fault running incoming rows rows' h =
    elim (Result-cases (get_by_id env.get_fault incoming.id rows)) [
      | inl (e, failed) ↦ ground arith
      | inr ((old, key), got) ↦
          let found = get_by_id-ok env.get_fault incoming.id rows (old, key) got in
          let p = prepare_tunnel_put running fault incoming.id old incoming rows in
          elim (Result-cases p.0) [
            | inl (e, refused) ↦ ground arith
            | inr (m, accepted) ↦
                let (new, stored, kept, same, active, body) =
                  put_row env fault running incoming old m key rows p.1 rows' found
                    (ground (arith, accepted)) (ground (arith, got, accepted, h)) in
                (old, key, new, found, stored, kept, same, active, body)
          ]
    ]
