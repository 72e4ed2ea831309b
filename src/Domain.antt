-- ===== src/Domain.antt =====
-- backend/internal/domain: the errors of errors.go and the records of tunnel.go, peer.go and
-- subscription.go. Row ids are natural numbers, since the database hands out positive ones; times
-- are numbers of nanoseconds; a pointer that may be nil is an Option.
pub mod Errors
use xray2wg.Base.{ℕ, Bool, Option, Text}
use xray2wg.Base.Int.{ℤ}

pub data WgStatus : Type 0 where
  running stopped error : WgStatus

-- The values that the code tells apart: every other text behaves as round robin.
pub data BalancingStrategy : Type 0 where
  unset round_robin least_ping : BalancingStrategy
  other : Text → BalancingStrategy

pub record WgInterface : Type 0 where
  pub id : ℕ
  pub name : Text
  pub tun_name : Text
  pub public_key : Text
  pub listen_port : ℕ
  pub wg_address : Text
  pub dns : Text
  pub mtu : ℤ
  pub mss_clamp : ℤ
  pub subscription_id : Option ℕ
  pub active_node_id : Option ℕ
  pub xray_port : ℕ
  pub fwmark : ℕ
  pub status : WgStatus
  pub error_message : Text
  pub uptime_started : Option ℕ
  pub balancing_strategy : BalancingStrategy

pub record WgPeer : Type 0 where
  pub id : ℕ
  pub interface_id : ℕ
  pub name : Text
  pub public_key : Text
  pub client_address : Text
  pub allowed_ips : Text
  pub persistent_keepalive : ℤ

-- The opaque JSON configurations stay texts.
pub record VlessNode : Type 0 where
  pub id : ℕ
  pub subscription_id : ℕ
  pub display_name : Text
  pub uuid : Text
  pub address : Text
  pub port : ℕ
  pub flow : Text
  pub encryption : Text
  pub packet_encoding : Text
  pub network : Text
  pub transport_config : Text
  pub security : Text
  pub security_config : Text
  pub raw_uri : Text
