-- ===== src/Endpoint.antt =====
-- backend/internal/infrastructure/netconf/resolve_peer_endpoint_host.go: the host of the Endpoint line
-- of a client's configuration. The interfaces with their IPv4 addresses, and whether the program runs
-- inside Docker, are arguments.
pub mod Maximum
use xray2wg.Base.{
  ℕ, ◌+◌, ◌*◌, Bool, true, false, not, ◌&&◌, ◌||◌, Option, none, some, List, [], ◌∷◌, ◌++◌, Text,
  codes, text_eq, nat_eq, ◌==◌, leb, itoa, is_empty, trim_space, to_lower, has_prefix, any,
  if◌then◌else◌,
}
use xray2wg.Base.Int.{ℤ, pos, negsuc, ltb_ℤ}
use xray2wg.ClientIp.{Ip4}

-- net.IP's predicates on four bytes.
pub is_loopback : Ip4 → Bool
is_loopback ip = ip.b0 == 127

pub is_link_local_unicast : Ip4 → Bool
is_link_local_unicast ip = (ip.b0 == 169) && (ip.b1 == 254)

pub is_private : Ip4 → Bool
is_private ip =
    (ip.b0 == 10)
    || ((ip.b0 == 172) && leb 16 ip.b1 && leb ip.b1 31)
    || ((ip.b0 == 192) && (ip.b1 == 168))

is_multicast : Ip4 → Bool
is_multicast ip = leb 224 ip.b0 && leb ip.b0 239

all_bytes : ℕ → Ip4 → Bool
all_bytes n ip = (ip.b0 == n) && (ip.b1 == n) && (ip.b2 == n) && (ip.b3 == n)

pub is_global_unicast : Ip4 → Bool
is_global_unicast ip =
    not (all_bytes 255 ip)
    && not (all_bytes 0 ip)
    && not (is_loopback ip)
    && not (is_multicast ip)
    && not (is_link_local_unicast ip)

-- skipInterfaceNameForPeerEndpoint
unfoldable pub skip_interface_name : Text → Bool
skip_interface_name name =
    let n = to_lower (trim_space name) in
    is_empty n
    || (n == codes "lo")
    || any (λ p. has_prefix n p)
        (codes "docker"
          ∷ codes "br-"
          ∷ codes "veth"
          ∷ codes "virbr"
          ∷ codes "vbox"
          ∷ codes "vmnet"
          ∷ codes "tun-wg"
          ∷ [])

-- ipInDockerDefaultBridge
pub in_docker_default_bridge : Ip4 → Bool
in_docker_default_bridge ip = (ip.b0 == 172) && (ip.b1 == 17)

-- `b<<16 | c<<8 | d`
abbrev pub low_bytes : Ip4 → ℕ
low_bytes ip = ip.b1 * 65536 + ip.b2 * 256 + ip.b3

-- scoreIPv4
pub score_ipv4 : Ip4 → ℤ
score_ipv4 ip =
    if not (is_global_unicast ip) || is_loopback ip || is_link_local_unicast ip
    then negsuc 0
    else if is_private ip
    then (if (ip.b0 == 192) && (ip.b1 == 168)
        then pos (4000000 + ip.b2 * 1000 + ip.b3)
        else if ip.b0 == 10
        then pos (3000000 + low_bytes ip)
        else if (ip.b0 == 172) && leb 16 ip.b1 && leb ip.b1 31
        then pos (2000000 + low_bytes ip)
        else pos (500000 + (ip.b0 * 16777216 + low_bytes ip)))
    else pos (1000000 + (ip.b0 * 16777216 + low_bytes ip))

-- ifaceAddrSnapshot; of the flags, the two that are read.
pub record Snapshot : Type 0 where
  pub name : Text
  pub is_up : Bool
  pub is_loopback_if : Bool
  pub ips : List Ip4

-- bestIP and bestScore
pub record Best : Type 0 where
  pub ip : Option Ip4
  pub score : ℤ

abbrev pub no_best : Best
no_best = record { ip = none; score = negsuc 0 }

-- The body of the inner loop.
pub consider : Bool → Best → Ip4 → Best
consider in_docker best ip =
    if in_docker && in_docker_default_bridge ip
    then best
    else if ltb_ℤ best.score (score_ipv4 ip)
    then record { ip = some ip; score = score_ipv4 ip }
    else best

pub consider_ips : Bool → Best → List Ip4 → Best
consider_ips in_docker best [] = best
consider_ips in_docker best (ip ∷ ips) = consider_ips in_docker (consider in_docker best ip) ips

pub is_usable : Snapshot → Bool
is_usable s = s.is_up && not s.is_loopback_if && not (skip_interface_name s.name)

pub consider_snapshots : Bool → Best → List Snapshot → Best
consider_snapshots in_docker best [] = best
consider_snapshots in_docker best (s ∷ snaps) =
    consider_snapshots in_docker (if is_usable s then consider_ips in_docker best s.ips else best)
      snaps

pub ip_text : Ip4 → Text
ip_text ip =
    itoa ip.b0 ++ codes "." ++ itoa ip.b1 ++ codes "." ++ itoa ip.b2 ++ codes "." ++ itoa ip.b3

-- pickPeerEndpointHostFromSnapshots
pub pick_peer_endpoint_host : Bool → List Snapshot → Text
pick_peer_endpoint_host in_docker snaps = elim (consider_snapshots in_docker no_best snaps).ip [
  | none ↦ []
  | some ip ↦ ip_text ip
]

-- resolvePeerEndpointHostFromSnapshots, after ResolvePeerEndpointHost has trimmed the two settings.
pub resolve_peer_endpoint_host : Text → Text → Bool → List Snapshot → Text
resolve_peer_endpoint_host server_host public_host in_docker snaps =
    let server = trim_space server_host in
    let public = trim_space public_host in
    let picked = pick_peer_endpoint_host in_docker snaps in
    if not (is_empty server)
    then server
    else if not (is_empty public)
    then public
    else if not (is_empty picked)
    then picked
    else codes "__CONFIGURE_SERVER_HOST__"
