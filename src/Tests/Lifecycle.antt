-- ===== src/Tests/Lifecycle.antt =====
-- Witnesses: starting and stopping a tunnel.
use xray2wg.Base.{true, none, some, List, [], ◌∷◌, codes, ◌≡◌, refl, nat_eq, lookup, contains}
use xray2wg.Base.{ℕ, Option, Text, if◌then◌else◌}
use xray2wg.Base.Int.{pos}
use xray2wg.Domain.{WgInterface, VlessNode, running, round_robin}
use xray2wg.Domain.Errors.{ok}
use xray2wg.Tunnel.World.{World, Env}
use xray2wg.Tunnel.Flags.{IsCoherent}
use xray2wg.Tunnel.Service.{start}
use xray2wg.Tunnel.Service.Coherence.{start_marks}
use xray2wg.Tunnel.Service.History.{
  Call, start_call, stop_call, reload_nodes_call, run, run-IsCoherent,
}
use xray2wg.Tunnel.Stop.{stop}
use xray2wg.Tunnel.Stop.Teardown.{stop_ends, Leaves}
use xray2wg.Tests.Iptables.{State, kernel}
use xray2wg.Tunnel.Create.{NewTunnel, Outside, filled, draft, create, effective_node_ids}
use xray2wg.Tunnel.Create.Defaults.{IsFilled, create-IsFilled}
use xray2wg.NodeHealth.{Cache, probe_all, node_ids}
use xray2wg.NodeHealth.Cycle.{next_entry, last_probed, lookup-probe_all}

abbrev pub tunnel_row : WgInterface
tunnel_row = record {
  id = 1;
  name = codes "home";
  tun_name = codes "tun-wg1";
  public_key = codes "pub";
  listen_port = 51820;
  wg_address = codes "10.0.0.1/24";
  dns = [];
  mtu = pos 1420;
  mss_clamp = pos 0;
  subscription_id = some 1;
  active_node_id = some 7;
  xray_port = 13001;
  fwmark = 4097;
  status = running;
  error_message = [];
  uptime_started = none;
  balancing_strategy = round_robin;
}

abbrev node : VlessNode
node = record {
  id = 7;
  subscription_id = 1;
  display_name = codes "n";
  uuid = codes "u";
  address = codes "example.org";
  port = 443;
  flow = [];
  encryption = codes "none";
  packet_encoding = [];
  network = codes "tcp";
  transport_config = [];
  security = codes "none";
  security_config = [];
  raw_uri = codes "vless://u";
}

abbrev pub env : Env
env = record {
  get_fault = none;
  restore_fault = none;
  update_fault = none;
  status_fault = none;
  list_fault = none;
  junction = some (node ∷ []);
  sub_nodes = λ n. none;
  get_node = λ n. ok node;
  parse_uri = λ u. none;
  decrypt = λ t. ok t;
  peers = ok [];
  psk = λ t. [];
  parse_key = λ t. ok t;
  wg = record { create_tun = none; ipc_set = none; start_uapi = none };
  xray_fault = none;
  parse_cidr = λ t. some (codes "10.0.0.1", codes "10.0.0.0/24");
  now = 5;
}

-- Nothing runs; the tunnel has its row.
abbrev idle : World State
idle = record {
  kernel = (none, []);
  devices = [];
  instances = [];
  running = [];
  tracked = [];
  rows = (1, (tunnel_row, codes "key")) ∷ [];
  events = [];
}

-- The tunnel is up.
abbrev up : World State
up = record idle {
  devices = (1, record { tun_name = codes "tun-wg1"; config = []; uapi = true }) ∷ [];
  instances =
      (
        1,
        record {
          port = 13001;
          fwmark = 4097;
          gateway = codes "10.0.0.1";
          nodes = node ∷ [];
          strategy = round_robin;
        },
      )
      ∷ [];
  running = 1 ∷ [];
  tracked = 1 ∷ [];
}

idle-IsCoherent : IsCoherent idle
unfolding lookup contains
idle-IsCoherent j = (refl, refl, refl)

abbrev history : List Call
history = start_call env 1 ∷ reload_nodes_call env 1 ∷ stop_call env 1 ∷ start_call env 2 ∷ []

run-IsCoherent_example : IsCoherent (run kernel history idle)
run-IsCoherent_example = run-IsCoherent kernel history idle idle-IsCoherent

start_marks_example :
    contains 1 (start kernel env 1 idle).1.running
    ≡ (elim (start kernel env 1 idle).0 [ none ↦ true | some e ↦ contains 1 idle.running ])
start_marks_example = start_marks kernel env 1 idle idle-IsCoherent 1

-- The tunnel's mark was lost, its device and instance are there.
abbrev unmarked : World kernel.K
unmarked = record up { running = [] }

stop_ends_example : Leaves kernel env 1 1 unmarked (stop kernel env 1 unmarked)
stop_ends_example = stop_ends kernel env 1 1 unmarked

-- The arguments of a Create, and what the outside answers.
abbrev request : NewTunnel
request = record {
  name = codes "office";
  listen = 51821;
  wg_addr = [];
  dns = [];
  mtu = pos 0;
  mss_clamp = pos 0;
  sub_id = some 1;
  node_id = some 7;
  node_ids = [];
  strategy = round_robin;
}

abbrev outside : Outside
outside = record {
  keypair = ok (codes "priv", codes "pub");
  encrypt = λ t. ok t;
  create_fault = none;
  update_fault = none;
  fields_fault = none;
  next_id = 2;
}

abbrev new_row : WgInterface
new_row = filled 2 (draft request (codes "pub"))

create-IsFilled_example :
    IsFilled new_row
    × ((enc : Text) × (lookup 2 (create request outside idle).1.rows ≡ some (new_row, enc)))
unfolding create filled draft effective_node_ids
create-IsFilled_example =
    create-IsFilled request outside idle new_row (7 ∷ []) (create request outside idle).1 refl refl
      refl

-- Every dial takes three milliseconds.
abbrev dial : Text → ℕ → Option ℕ × ℕ
dial host port = (some 3, 10)

abbrev no_probes : Cache
no_probes = []

lookup-probe_all_example : lookup 7 (probe_all dial (ok (node ∷ [])) no_probes) ≡ (
    if contains 7 (node_ids (node ∷ []))
    then next_entry dial (last_probed 7 (node ∷ [])) (lookup 7 no_probes)
    else none)
lookup-probe_all_example = lookup-probe_all dial node [] no_probes 7
