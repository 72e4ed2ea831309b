-- ===== src/Wireguard/Peers.antt =====
-- What wireguard/manager.go puts into a device's configuration.
use xray2wg.Base.{
  ℕ, false, not, Option, none, some, List, [], ◌∷◌, ◌++◌, Text, is_empty, trim_space, map, keep_if,
  All, ◌≡◌, ◌≢◌, refl, arith, length, split_on, inl, inr, zero, suc, Bool-cases, ap, nat_eq, ◌==◌,
}
use xray2wg.Base.Int.{ℤ, pos, negsuc}
use xray2wg.Domain.{WgPeer}
use xray2wg.Domain.Errors.{Result, ok, Result-cases}
use xray2wg.Wireguard.{
  IpcLine, private_key, public_key, preshared_key, listen_port, persistent_keepalive, replace_peers,
  protocol_version, replace_allowed_ips, blank, allowed_ip, split_allowed, or_default,
  keepalive_line, psk_line, peer_lines, peers_lines, build_ipc,
}

-- The keys of the peers that a configuration names, in order.
abbrev pub keys_of : List IpcLine → List Text
keys_of [] = []
keys_of (public_key k ∷ ls) = k ∷ keys_of ls
keys_of (_ ∷ ls) = keys_of ls

keys_of-append : (ls ms : List IpcLine) → keys_of (ls ++ ms) ≡ keys_of ls ++ keys_of ms
keys_of-append [] ms = refl
keys_of-append (private_key k ∷ ls) ms = keys_of-append ls ms
keys_of-append (public_key k ∷ ls) ms = ap (λ ks. k ∷ ks) (keys_of-append ls ms)
keys_of-append (preshared_key k ∷ ls) ms = keys_of-append ls ms
keys_of-append (listen_port n ∷ ls) ms = keys_of-append ls ms
keys_of-append (persistent_keepalive n ∷ ls) ms = keys_of-append ls ms
keys_of-append (replace_peers ∷ ls) ms = keys_of-append ls ms
keys_of-append (protocol_version ∷ ls) ms = keys_of-append ls ms
keys_of-append (replace_allowed_ips ∷ ls) ms = keys_of-append ls ms
keys_of-append (blank ∷ ls) ms = keys_of-append ls ms
keys_of-append (allowed_ip t ∷ ls) ms = keys_of-append ls ms

keys_of-allowed : (ts : List Text) → keys_of (map allowed_ip ts) ≡ []
keys_of-allowed [] = refl
keys_of-allowed (t ∷ ts) = keys_of-allowed ts

keys_of-keepalive : (n : ℤ) → keys_of (keepalive_line n) ≡ []
unfolding keepalive_line
keys_of-keepalive (pos zero) = refl
keys_of-keepalive (pos (suc n)) = refl
keys_of-keepalive (negsuc n) = refl

keys_of-psk : (psk : Option (Text → Text)) (k : Text) → keys_of (psk_line psk k) ≡ []
unfolding psk_line
keys_of-psk none k = refl
keys_of-psk (some f) k = elim (Bool-cases (length (f (trim_space k)) == 32)) [
  | inl long ↦ rw (long) refl
  | inr short ↦ rw (short) refl
]

keys_of-peer :
    (key : Text) (psk : Option (Text → Text)) (p : WgPeer)
    → keys_of (peer_lines key psk p) ≡ key ∷ []
unfolding peer_lines
keys_of-peer key psk p =
    rw
      (
        keys_of-append (psk_line psk p.public_key) (
            replace_allowed_ips
            ∷ (map allowed_ip (split_allowed p.allowed_ips)
                ++ keepalive_line p.persistent_keepalive)),
        keys_of-psk psk p.public_key,
        keys_of-append (map allowed_ip (split_allowed p.allowed_ips))
            (keepalive_line p.persistent_keepalive),
        keys_of-allowed (split_allowed p.allowed_ips),
        keys_of-keepalive p.persistent_keepalive,
      )
      refl

abbrev pub NoneEmpty : List Text → Type 0
NoneEmpty ts = All (λ t. is_empty t ≡ false) ts

kept-NoneEmpty : (ts : List Text) → NoneEmpty (keep_if (λ t. not (is_empty t)) ts)
kept-NoneEmpty [] = tt
kept-NoneEmpty (t ∷ ts) = elim (Bool-cases (is_empty t)) [
  | inl empty ↦ rw (empty) (kept-NoneEmpty ts)
  | inr full ↦ rw (full) (full, kept-NoneEmpty ts)
]

or_default-NoneEmpty :
    (ts : List Text) → NoneEmpty ts → (or_default ts ≢ []) × NoneEmpty (or_default ts)
unfolding or_default
or_default-NoneEmpty [] h = (λ e. ground arith, (refl, tt))
or_default-NoneEmpty (t ∷ ts) h = (λ e. ground arith, h)

-- The allowed addresses of a peer, as the configuration lists them: there is one, and none is empty.
pub split_allowed-NoneEmpty : (s : Text) → (split_allowed s ≢ []) × NoneEmpty (split_allowed s)
unfolding split_allowed
split_allowed-NoneEmpty s = elim (Bool-cases (is_empty (trim_space s))) [
  | inl empty ↦ rw (empty) (λ e. ground arith, (refl, tt))
  | inr full ↦
      rw (full) (or_default-NoneEmpty _ (kept-NoneEmpty (map trim_space (split_on b',' s))))
]

-- Each key is the parse of the peer's trimmed key, peer by peer.
abbrev pub Parsed : (Text → Result Text) → List WgPeer → List Text → Type 0
Parsed parse_key [] [] = Unit
Parsed parse_key [] (k ∷ ks) = ⊥
Parsed parse_key (p ∷ ps) [] = ⊥
Parsed parse_key (p ∷ ps) (k ∷ ks) =
    (parse_key (trim_space p.public_key) ≡ ok k) × Parsed parse_key ps ks

module _ (parse_key : Text → Result Text) (psk : Option (Text → Text)) where
  peer-Parsed :
      (p : WgPeer) (ps : List WgPeer) (key : Text) (rest : List IpcLine)
      → parse_key (trim_space p.public_key) ≡ ok key
      → Parsed parse_key ps (keys_of rest)
      → Parsed parse_key (p ∷ ps) (keys_of (peer_lines key psk p ++ rest))
  peer-Parsed p ps key rest parsed h =
      rw (keys_of-append (peer_lines key psk p) rest, keys_of-peer key psk p) (parsed, h)

  peers_lines-Parsed :
      (ps : List WgPeer) (ls : List IpcLine)
      → peers_lines parse_key psk ps ≡ ok ls
      → Parsed parse_key ps (keys_of ls)
  unfolding peers_lines
  peers_lines-Parsed [] ls h = let lines : ls ≡ blank ∷ [] = ground arith in rw (lines) tt
  peers_lines-Parsed (p ∷ ps) ls h = elim (Result-cases (parse_key (trim_space p.public_key))) [
    | inl (e, failed) ↦ ground arith
    | inr (key, parsed) ↦ elim (Result-cases (peers_lines parse_key psk ps)) [
      | inl (e, failed) ↦ ground arith
      | inr (rest, got) ↦
          let lines : ls ≡ peer_lines key psk p ++ rest = ground arith in
          rw (lines) (peer-Parsed p ps key rest parsed (peers_lines-Parsed ps rest got))
    ]
  ]

  -- A configuration that is built names exactly the peers it was given, in their order, each with
  -- the parse of its trimmed public key.
  pub build_ipc-Parsed :
      (port : ℕ) (priv : Text) (ps : List WgPeer) (cfg : List IpcLine)
      → build_ipc parse_key port priv ps psk ≡ ok cfg
      → Parsed parse_key ps (keys_of cfg)
  unfolding build_ipc
  build_ipc-Parsed port priv ps cfg h = elim (Result-cases (parse_key (trim_space priv))) [
    | inl (e, failed) ↦ ground arith
    | inr (key, parsed) ↦ elim (Result-cases (peers_lines parse_key psk ps)) [
      | inl (e, failed) ↦ ground arith
      | inr (rest, got) ↦
          let lines : cfg ≡ private_key key ∷ listen_port port ∷ replace_peers ∷ rest =
            ground arith in
          rw (lines) (peers_lines-Parsed ps rest got)
    ]
  ]
