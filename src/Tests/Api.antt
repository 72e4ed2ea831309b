-- ===== src/Tests/Api.antt =====
-- Witnesses: answers to errors, the event log and the PUT of a tunnel.
use xray2wg.Base.{
  ℕ, false, none, some, List, [], ◌∷◌, ◌++◌, Text, codes, ◌≡◌, refl, lookup, insert, erase,
  text_beq, trim_space, take, arith, nat_eq,
}
use xray2wg.Domain.{WgInterface}
use xray2wg.Base.{split_on, to_lower, add}
use xray2wg.Origin.{Parse, new_config, allow_parts, normalize_origin, allow_origin}
use xray2wg.Origin.Exact.{is_listed, allow_origin-new_config}
use xray2wg.Domain.Errors.{plain, ok}
use xray2wg.ErrorMap.{map_error}
use xray2wg.ErrorMap.Opaque.{IsGuarded, map_error-IsGuarded}
use xray2wg.EventLog.{EventLog, list, reverse, summary_events}
use xray2wg.EventLog.Window.{Added, add_all, entries, list-add_all, summary_events-oldest}
use xray2wg.Tunnel.Repo.{Rows, get_by_id, update, clear_active_node_id}
use xray2wg.Tunnel.Put.{
  update_tunnel, prepare_tunnel_put, preserve_lifecycle, preserve_bindings, with_dns,
}
use xray2wg.Tunnel.Put.Lifecycle.{
  renames, SameLifecycle, FromBody, next_active_node, update_tunnel-ok,
}
use xray2wg.Tests.Lifecycle.{env, tunnel_row}

abbrev status_text : ℕ → Text
status_text n = []

map_error-IsGuarded_example : IsGuarded (map_error status_text (plain (codes "db is locked")))
map_error-IsGuarded_example = map_error-IsGuarded status_text (plain (codes "db is locked"))

abbrev event_log : EventLog
event_log = record { max = 2; events = []; has_db = false; saved = [] }

abbrev added : List Added
added =
    (1, codes "info", codes "system", codes "a")
    ∷ (2, codes "warn", codes "system", codes "b")
    ∷ (3, codes "info", codes "system", codes "c")
    ∷ []

list-add_all_example :
    list (add_all added event_log) ≡ take 2 (reverse (entries added) ++ list event_log)
list-add_all_example = list-add_all added event_log (omega arith)

summary_events-oldest_example : summary_events event_log ≡ take 20 event_log.events
summary_events-oldest_example = summary_events-oldest event_log

-- Another name and another subscription for a tunnel that does not run.
abbrev body : WgInterface
body = record tunnel_row {
  name = codes "work";
  subscription_id = some 2;
  active_node_id = none;
  dns = codes "1.1.1.1";
}

abbrev rows : Rows
rows = (1, (tunnel_row, codes "key")) ∷ []

update_tunnel-ok_example :
    (old : WgInterface) × (key : Text) × (new : WgInterface) × (lookup 1 rows ≡ some (old, key))
    × (lookup 1 (update_tunnel env none false body rows).1 ≡ some (new, key))
    × (renames false old body ≡ false)
    × SameLifecycle old new
    × (new.active_node_id ≡ next_active_node old body)
    × FromBody body new
unfolding update_tunnel get_by_id update prepare_tunnel_put preserve_lifecycle preserve_bindings
    with_dns lookup insert erase text_beq trim_space clear_active_node_id
update_tunnel-ok_example =
    update_tunnel-ok env none false body rows (update_tunnel env none false body rows).1 refl

-- A parser that finds the same scheme and host in every text.
abbrev parse : Parse
parse t = ok (codes "HTTPS", codes "gw.local")

allow_origin-new_config_example :
    allow_origin parse (codes "https://gw.local" ∷ []) (codes "https://GW.local")
    ≡ is_listed parse (codes "https://gw.local") (codes "https://GW.local")
unfolding new_config allow_parts normalize_origin split_on trim_space to_lower add
allow_origin-new_config_example =
    allow_origin-new_config parse (codes "https://gw.local") (codes "https://gw.local" ∷ [])
      (codes "https://GW.local") refl
