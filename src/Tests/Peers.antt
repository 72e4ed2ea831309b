-- ===== src/Tests/Peers.antt =====
-- Witnesses: the peers of a tunnel.
use xray2wg.Base.{
  ◌+◌, true, none, some, List, [], ◌∷◌, codes, ◌≡◌, ◌≢◌, refl, lookup, nat_eq, trim_space, text_beq,
  has_prefix, to_lower, trim_left, trim_right, is_space, any, false, ◌==◌, text_eq, if◌then◌else◌,
  ◌⊎◌, arith,
}
use xray2wg.Base.Int.{pos, negsuc}
use xray2wg.Domain.{WgPeer}
use xray2wg.Domain.Errors.{ok}
use xray2wg.Wireguard.{
  IpcLine, private_key, public_key, listen_port, replace_peers, protocol_version,
  replace_allowed_ips, allowed_ip, persistent_keepalive, blank, build_ipc, split_allowed,
}
use xray2wg.Wireguard.Peers.{Parsed, keys_of, build_ipc-Parsed, NoneEmpty, split_allowed-NoneEmpty}
use xray2wg.ClientIp.{Ip4, ParseCidr, next_client_ip}
use xray2wg.ClientIp.Fresh.{IsNext, next_client_ip-IsNext}
use xray2wg.Traffic.{Counters}
use xray2wg.Traffic.Total.{
  Step, carried_on, restarted, sample_all, passed_rx, passed_tx, unseen_rx, unseen_tx,
  sample_all-Total,
}
use xray2wg.Endpoint.{Snapshot, no_best, consider_snapshots, score_ipv4, skip_interface_name}
use xray2wg.Endpoint.Maximum.{Among, UpTo, eligible, consider_snapshots-Maximum}

abbrev peer : WgPeer
peer = record {
  id = 3;
  interface_id = 1;
  name = codes "phone";
  public_key = codes "key";
  client_address = codes "10.0.0.2/32";
  allowed_ips = [];
  persistent_keepalive = pos 25;
}

abbrev config : List IpcLine
config =
    private_key (codes "priv")
    ∷ listen_port 51820
    ∷ replace_peers
    ∷ public_key (codes "key")
    ∷ protocol_version
    ∷ replace_allowed_ips
    ∷ allowed_ip (codes "0.0.0.0/0")
    ∷ persistent_keepalive 25
    ∷ blank
    ∷ []

build_ipc-Parsed_example : Parsed (λ t. ok t) (peer ∷ []) (keys_of config)
unfolding build_ipc trim_space split_allowed
build_ipc-Parsed_example =
    build_ipc-Parsed (λ t. ok t) none 51820 (codes "priv") (peer ∷ []) config refl

split_allowed-NoneEmpty_example :
    (split_allowed (codes "10.0.0.0/8,,") ≢ []) × NoneEmpty (split_allowed (codes "10.0.0.0/8,,"))
split_allowed-NoneEmpty_example = split_allowed-NoneEmpty (codes "10.0.0.0/8,,")

abbrev network : Ip4
network = record { b0 = 10; b1 = 0; b2 = 0; b3 = 0 }

-- The network of the tunnel, and the address of the one peer.
abbrev parse_cidr : ParseCidr
parse_cidr t =
    if t == codes "10.0.0.2/32"
    then ok (some (record { b0 = 10; b1 = 0; b2 = 0; b3 = 2 }), none)
    else ok (some (record { b0 = 10; b1 = 0; b2 = 0; b3 = 1 }), some network)

next_client_ip-IsNext_example :
    IsNext parse_cidr network
      (peer ∷ [])
      (next_client_ip parse_cidr (ok (peer ∷ [])) (codes "10.0.0.1/24"))
unfolding text_beq
next_client_ip-IsNext_example =
    next_client_ip-IsNext parse_cidr (peer ∷ []) (codes "10.0.0.1/24")
      (some (record { b0 = 10; b1 = 0; b2 = 0; b3 = 1 })) network refl

abbrev counters : Counters
counters = record {
  rx_bytes = 100;
  tx_bytes = 50;
  last_seen_rx_raw = 40;
  last_seen_tx_raw = 30;
  last_handshake = none;
}

abbrev steps : List Step
steps = carried_on 5 6 ∷ restarted 5 1 2 3 ∷ carried_on 10 10 ∷ []

sample_all-Total_example :
    (c : Counters) × (lookup 3 (sample_all 3 none 40 30 steps ((3, counters) ∷ [])) ≡ some c)
    × (c.rx_bytes + unseen_rx steps ≡ 100 + passed_rx steps)
    × (c.tx_bytes + unseen_tx steps ≡ 50 + passed_tx steps)
unfolding lookup
sample_all-Total_example =
    sample_all-Total 3 none steps ((3, counters) ∷ []) 100 50 40 30
      (counters, refl, refl, refl, refl, refl) (tt, ((omega arith, omega arith), (tt, tt)))

abbrev lan : Ip4
lan = record { b0 = 192; b1 = 168; b2 = 1; b3 = 5 }

abbrev bridge : Ip4
bridge = record { b0 = 172; b1 = 18; b2 = 0; b3 = 1 }

abbrev snapshots : List Snapshot
snapshots =
    record { name = codes "docker0"; is_up = true; is_loopback_if = false; ips = bridge ∷ [] }
    ∷ record { name = codes "eth0"; is_up = true; is_loopback_if = false; ips = lan ∷ network ∷ [] }
    ∷ []

-- As in the code's own tests: interfaces of Docker and of the program are left out, others are not.
skipped_names : any skip_interface_name (codes "eth0" ∷ codes "d" ∷ codes "wlan0" ∷ []) ≡ false
unfolding skip_interface_name has_prefix to_lower trim_space trim_left trim_right is_space text_beq
skipped_names = refl

skipped_docker : skip_interface_name (codes "docker0") ≡ true
unfolding skip_interface_name has_prefix to_lower trim_space trim_left trim_right is_space text_beq
skipped_docker = refl

skipped_tunnel : skip_interface_name (codes " TUN-wg1") ≡ true
unfolding skip_interface_name has_prefix to_lower trim_space trim_left trim_right is_space text_beq
skipped_tunnel = refl

consider_snapshots-Maximum_example :
    let b = consider_snapshots true no_best snapshots in
    ((b.ip ≡ none) × UpTo (negsuc 0) (eligible true snapshots))
    ⊎ ((ip : Ip4) × (b.ip ≡ some ip)
        × Among ip (eligible true snapshots)
        × UpTo (score_ipv4 ip) (eligible true snapshots))
consider_snapshots-Maximum_example = consider_snapshots-Maximum true snapshots
