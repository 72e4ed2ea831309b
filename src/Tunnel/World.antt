-- ===== src/Tunnel/World.antt =====
-- The state of the tunnel service with what it drives, and what the outside answers to one call.
use xray2wg.Base.{ℕ, ◌+◌, Option, none, some, List, [], ◌∷◌, ◌++◌, Text, codes, itoa, trim_space}
use xray2wg.Domain.{WgPeer, VlessNode, BalancingStrategy, unset, round_robin}
use xray2wg.Domain.Errors.{GoError, plain, Result, ok, err}
use xray2wg.Netconf.Kernel.{Cmd}
use xray2wg.Wireguard.{Devices, Faults}
use xray2wg.Xray.{Instances}
use xray2wg.Tunnel.Repo.{Rows}

pub data Event : Type 0 where
  created started stopped : ℕ → Event
  restore_failed : ℕ → GoError → Event

-- `running` is the RunSet, `tracked` the set of the stats collector.
pub record World (K : Type 0) : Type 0 where
  pub kernel : K
  pub devices : Devices
  pub instances : Instances
  pub running : List ℕ
  pub tracked : List ℕ
  pub rows : Rows
  pub events : List Event

-- Every fallible call that one operation makes fails or not as this record says; `junction` is
-- none where ListNodes fails; the callback for preshared keys is that of the peer service.
pub record Env : Type 0 where
  pub get_fault : Option Text
  pub restore_fault : Option Text
  pub update_fault : Option Text
  pub status_fault : Option Text
  pub list_fault : Option Text
  pub junction : Option (List VlessNode)
  pub sub_nodes : ℕ → Option (List VlessNode)
  pub get_node : ℕ → Result VlessNode
  pub parse_uri : Text → Option VlessNode
  pub decrypt : Text → Result Text
  pub peers : Result (List WgPeer)
  pub psk : Text → Text
  pub parse_key : Text → Result Text
  pub wg : Faults
  pub xray_fault : Option Text
  -- net.ParseCIDR: the host and the network as texts
  pub parse_cidr : Text → Option (Text × Text)
  pub now : ℕ

-- netconf.ClientSubnetCIDR
pub client_subnet : Env → Text → Result Text
client_subnet env addr = elim (env.parse_cidr (trim_space addr)) [
  | none ↦ err (plain (codes "invalid CIDR address: " ++ trim_space addr))
  | some (host, network) ↦ ok network
]

-- netconf.WgGatewayHost
unfoldable pub gateway_host : Env → Text → Result Text
gateway_host env addr = elim (env.parse_cidr (trim_space addr)) [
  | none ↦ err (plain (codes "invalid CIDR address: " ++ trim_space addr))
  | some (host, network) ↦ ok host
]

-- `if gw, err := …; err == nil { localGW = gw }`
pub local_gateway : Env → Text → Text
unfolding gateway_host
local_gateway env addr = elim (gateway_host env addr) [ err e ↦ [] | ok gw ↦ gw ]

-- computeRuntime: the name of the TUN, the Xray port, the mark and the routing table.
pub record Runtime : Type 0 where
  pub tun : Text
  pub port : ℕ
  pub fwmark : ℕ
  pub table : ℕ

unfoldable pub compute_runtime : ℕ → Runtime
compute_runtime id = record {
  tun = codes "tun-wg" ++ itoa id;
  port = 13000 + id;
  fwmark = 0x1000 + id;
  table = 100 + id;
}

abbrev pub or_round_robin : BalancingStrategy → BalancingStrategy
or_round_robin unset = round_robin
or_round_robin s = s

module _ {K : Type 0} where
  -- `_ = netconf.…`
  abbrev pub on_kernel : Cmd K → World K → World K
  on_kernel c w = record w { kernel = (c w.kernel).1 }

  abbrev pub log : Event → World K → World K
  log e w = record w { events = w.events ++ e ∷ [] }
