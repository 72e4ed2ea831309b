-- ===== src/Wireguard.antt =====
-- backend/internal/infrastructure/wireguard/manager.go: the table of userspace devices and the
-- configuration that is handed to one. Opening the TUN, wgtypes.ParseKey, IpcSet and the UAPI
-- listener belong to wireguard-go: their results are arguments.
pub mod Peers
use xray2wg.Base.{
  ℕ, zero, suc, ◌-◌, ◌≡◌, Bool, true, false, Option, none, some, List, [], ◌∷◌, ◌++◌, Text, codes,
  itoa, is_empty, trim_space, split_on, length, keep_if, map, ◌==◌, nat_eq, lookup, insert, erase,
  if◌then◌else◌, not, is_some, is_some-lookup-insert, is_some-lookup-erase, arith, Option-cases,
  inl, inr,
}
use xray2wg.Base.Int.{ℤ, pos, negsuc}
use xray2wg.Domain.{WgPeer}
use xray2wg.Domain.Errors.{GoError, plain, Result, ok, err}

-- The lines of a UAPI «set» operation; a key is its 32 bytes.
pub data IpcLine : Type 0 where
  private_key public_key preshared_key : Text → IpcLine
  listen_port persistent_keepalive : ℕ → IpcLine
  replace_peers protocol_version replace_allowed_ips blank : IpcLine
  allowed_ip : Text → IpcLine

abbrev pub default_route : Text
default_route = codes "0.0.0.0/0"

or_default : List Text → List Text
or_default [] = default_route ∷ []
or_default (x ∷ xs) = x ∷ xs

-- splitAllowed
unfoldable pub split_allowed : Text → List Text
unfolding or_default
split_allowed s =
    if is_empty (trim_space s)
    then default_route ∷ []
    else or_default (keep_if (λ t. not (is_empty t)) (map trim_space (split_on b',' s)))

unfoldable pub keepalive_line : ℤ → List IpcLine
keepalive_line (pos zero) = []
keepalive_line (pos (suc n)) = persistent_keepalive (suc n) ∷ []
keepalive_line (negsuc n) = []

-- The callback may be nil; a key of another length is left out.
unfoldable pub psk_line : Option (Text → Text) → Text → List IpcLine
psk_line none pub_key = []
psk_line (some f) pub_key =
    let pk = f (trim_space pub_key) in if length pk == 32 then preshared_key pk ∷ [] else []

unfoldable pub peer_lines : Text → Option (Text → Text) → WgPeer → List IpcLine
unfolding psk_line keepalive_line split_allowed
peer_lines key psk p =
    public_key key
    ∷ protocol_version
    ∷ (psk_line psk p.public_key
        ++ (replace_allowed_ips
            ∷ (map allowed_ip (split_allowed p.allowed_ips)
                ++ keepalive_line p.persistent_keepalive)))

module _ (parse_key : Text → Result Text) where
  unfoldable pub peers_lines : Option (Text → Text) → List WgPeer → Result (List IpcLine)
  unfolding peer_lines
  peers_lines psk [] = ok (blank ∷ [])
  peers_lines psk (p ∷ ps) = elim (parse_key (trim_space p.public_key)) [
    | err e ↦ err e
    | ok key ↦ elim (peers_lines psk ps) [
      | err e ↦ err e
      | ok rest ↦ ok (peer_lines key psk p ++ rest)
    ]
  ]

  -- buildIPC
  unfoldable pub build_ipc : ℕ → Text → List WgPeer → Option (Text → Text) → Result (List IpcLine)
  unfolding peers_lines
  build_ipc port priv peers psk = elim (parse_key (trim_space priv)) [
    | err e ↦ err e
    | ok key ↦ elim (peers_lines psk peers) [
      | err e ↦ err e
      | ok rest ↦ ok (private_key key ∷ listen_port port ∷ replace_peers ∷ rest)
    ]
  ]

pub record Device : Type 0 where
  pub tun_name : Text
  pub config : List IpcLine
  pub uapi : Bool

-- What the outside answers to one call of Create or ReloadPeers.
pub record Faults : Type 0 where
  pub create_tun : Option Text
  pub ipc_set : Option Text
  pub start_uapi : Option Text

abbrev pub Devices : Type 0
Devices = List (ℕ × Device)

abbrev config_of : Result (List IpcLine) → List IpcLine
config_of (ok c) = c
config_of (err e) = []

abbrev is_none : Option Text → Bool
is_none none = true
is_none (some m) = false

module _ (parse_key : Text → Result Text) (f : Faults) where
  -- Manager.Create
  pub create : ℕ → ℕ → Text → List WgPeer → Option (Text → Text) → Text → Devices → Result Devices
  create id port priv peers psk tun ds = elim f.create_tun [
    | some m ↦ err (plain m)
    | none ↦ elim (build_ipc parse_key port priv peers psk) [
      | err e ↦ err e
      | ok cfg ↦ elim f.ipc_set [
        | some m ↦ err (plain m)
        | none ↦
            ok (insert id (record { tun_name = tun; config = cfg; uapi = is_none f.start_uapi }) ds)
      ]
    ]
  ]

  -- Manager.ReloadPeers, on the table of devices: the device takes the new configuration.
  pub reload_peers : ℕ → ℕ → Text → List WgPeer → Option (Text → Text) → Devices → Result Devices
  reload_peers id port priv peers psk ds = elim (lookup id ds) [
    | none ↦ err (plain (codes "wg device missing for tunnel " ++ itoa id))
    | some d ↦ elim (build_ipc parse_key port priv peers psk) [
      | err e ↦ err e
      | ok cfg ↦ elim f.ipc_set [
        | some m ↦ err (plain m)
        | none ↦ ok (insert id (record d { config = cfg }) ds)
      ]
    ]
  ]

-- Manager.Destroy
pub destroy : ℕ → Devices → Devices
destroy id ds = erase id ds

pub is_some-destroy :
    (id j : ℕ) (ds : Devices)
    → is_some (lookup j (destroy id ds)) ≡ (if id == j then false else is_some (lookup j ds))
unfolding destroy
is_some-destroy id j ds = is_some-lookup-erase id j ds

module _ (parse_key : Text → Result Text) (f : Faults) (id port : ℕ) (priv : Text) where
  pub is_some-create :
      (peers : List WgPeer) (psk : Option (Text → Text)) (tun : Text) (ds ds' : Devices) (j : ℕ)
      → create parse_key f id port priv peers psk tun ds ≡ ok ds'
      → is_some (lookup j ds') ≡ (if id == j then true else is_some (lookup j ds))
  unfolding create
  is_some-create peers psk tun ds ds' j e = ground (
    arith,
    is_some-lookup-insert id j
        (record {
          tun_name = tun;
          config = config_of (build_ipc parse_key port priv peers psk);
          uapi = is_none f.start_uapi;
        })
        ds,
  )

  pub is_some-reload_peers :
      (peers : List WgPeer) (psk : Option (Text → Text)) (ds ds' : Devices) (j : ℕ)
      → reload_peers parse_key f id port priv peers psk ds ≡ ok ds'
      → is_some (lookup j ds') ≡ is_some (lookup j ds)
  unfolding reload_peers
  is_some-reload_peers peers psk ds ds' j e = elim (Option-cases (lookup id ds)) [
    | inl missing ↦ ground arith
    | inr (d, found) ↦ ground (
      arith,
      is_some-lookup-insert id j
          (record d { config = config_of (build_ipc parse_key port priv peers psk) }) ds,
    )
  ]
