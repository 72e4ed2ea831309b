-- ===== src/Netconf/TProxy/Chain.antt =====
-- The mangle chain that SetupTProxy leaves, and what it does to a packet.
use xray2wg.Base.{
  ℕ, Bool, true, false, Option, none, some, List, [], ◌∷◌, ◌++◌, ◌≡◌, ◌≢◌, ◌⊎◌, refl, Text,
  is_empty, trim_space, ◌==◌, nat_eq, text_eq, ◌&&◌, not, if◌then◌else◌, arith, Bool-cases, inl,
  inr,
}
use mathlib.Core.Path.{subst}
use mathlib.Core.List.{append-nil, append_assoc}
use xray2wg.Base.Int.{ℤ, pos, leb_ℤ}
use xray2wg.Domain.Errors.{GoError}
use xray2wg.Netconf.Kernel.{
  Kernel, IsLawful, Cmd, Outcome, done, failed, Rule, mangle, prerouting, tunnel, tcp, udp,
  dns_return, icmp_return, set_mss, tproxy, drop_quic, return_all, jump_from, ◌>>◌, skip, exec,
  attempt, check, when, outcome,
}
use xray2wg.Netconf.Rules.{
  Packet, Payload, over, icmp, other, Verdict, returned, dropped, proxied, walk, same_proto,
}
use xray2wg.Netconf.TProxy.{
  default_mss_clamp, drop_quic_vision, prepare_chain, put, skip_dns, setup_tproxy,
}

abbrev pub dns_rules : Text → List Rule
dns_rules [] = []
dns_rules (c ∷ gw) = dns_return udp (c ∷ gw) ∷ dns_return tcp (c ∷ gw) ∷ []

abbrev pub quic_rules : Bool → List Rule
quic_rules true = drop_quic ∷ []
quic_rules false = []

-- The rules in their order.
abbrev pub chain_rules : ℕ → ℕ → Text → Bool → ℤ → List Rule
chain_rules port mark gw quic mss =
    dns_rules gw
    ++ (icmp_return
        ∷ set_mss mss
        ∷ tproxy tcp port mark
        ∷ (quic_rules quic ++ (tproxy udp port mark ∷ return_all ∷ [])))

-- What shall become of a packet from the tunnel.
abbrev pub fate : ℕ → ℕ → Text → Bool → Packet → Verdict
fate port mark gw quic p = elim p.payload [
  | icmp ↦ returned
  | other ↦ returned
  | over proto n ↦
      if not (is_empty gw) && (p.dst == gw && n == 53)
      then returned
      else if quic && (same_proto udp proto && n == 443)
      then dropped
      else proxied port mark
]

-- DNS for the gateway, ICMP and the other protocols pass by the proxy, QUIC is dropped for a Vision
-- flow, and all other TCP and UDP goes to the proxy's port with the tunnel's mark.
walk-chain_rules :
    (port mark : ℕ) (gw : Text) (quic : Bool) (mss : ℤ) (p : Packet)
    → walk (chain_rules port mark gw quic mss) p ≡ fate port mark gw quic p
unfolding walk
walk-chain_rules port mark gw quic mss p = fate_of gw quic p.payload
  where
    fate_of :
        (gw : Text) (quic : Bool) (pl : Payload)
        → walk (chain_rules port mark gw quic mss) (record p { payload = pl })
          ≡ fate port mark gw quic (record p { payload = pl })
    fate_of [] quic icmp = ground arith
    fate_of [] quic other = ground arith
    fate_of [] quic (over tcp n) = ground arith
    fate_of [] quic (over udp n) = ground arith
    fate_of (c ∷ gw) quic icmp = ground arith
    fate_of (c ∷ gw) quic other = ground arith
    fate_of (c ∷ gw) quic (over tcp n) = ground arith
    fate_of (c ∷ gw) quic (over udp n) = ground arith

abbrev mss_or_default : ℤ → ℤ
mss_or_default mss = if leb_ℤ mss (pos 0) then default_mss_clamp else mss

seq_done :
    {K : Type 0} (r : Option GoError × K) (b : Cmd K) (k'' : K)
    → (elim r.0 as (λ _. Option GoError × K) [ none ↦ b r.1 | some m ↦ (some m, r.1) ])
      ≡ (none, k'')
    → (k' : K) × (r ≡ (none, k')) × (b k' ≡ (none, k''))
seq_done (none, k') b k'' e = (k', refl, e)
seq_done (some m, k') b k'' e = absurd (cc)

regroup :
    (dns quic : List Rule) (a b c u r : Rule)
    → ((((((((([] ++ []) ++ dns) ++ a ∷ []) ++ b ∷ []) ++ c ∷ []) ++ quic) ++ u ∷ []) ++ r ∷ [])
        ++ [])
      ≡ dns ++ (a ∷ b ∷ c ∷ (quic ++ (u ∷ r ∷ [])))
regroup dns quic a b c u r = simp (append_assoc, append-nil)

outcome_done :
    {K : Type 0} (k : K) (o : Outcome K) (k' : K) → outcome k o ≡ (none, k') → o ≡ done k'
outcome_done k (done k₁) k' e = cc
outcome_done k (failed m) k' e = cc

-- What a command whose error is ignored leaves.
outcome_state :
    {K : Type 0} (k : K) (o : Outcome K) → (o ≡ done (outcome k o).1) ⊎ ((outcome k o).1 ≡ k)
outcome_state k (done k₁) = inl refl
outcome_state k (failed m) = inr refl

module _ (h : Kernel) (lawful : IsLawful h) (id : ℕ)
    (flushes : (k : h.K) (m : Text) → h.clear_chain mangle (tunnel id) k ≢ failed m) where
  abbrev Holds : List Rule → h.K → Type 0
  Holds l k = h.rules mangle (tunnel id) k ≡ some l

  -- A command that succeeds only with these rules at the end of the tunnel's chain.
  Adds : Cmd h.K → List Rule → Type 0
  Adds c rs = (k k' : h.K) (l : List Rule) → c k ≡ (none, k') → Holds l k → Holds (l ++ rs) k'

  -- A command that succeeds only with the tunnel's chain made anew.
  Makes : Cmd h.K → List Rule → Type 0
  Makes c l = (k k' : h.K) → c k ≡ (none, k') → Holds l k'

  Makes->> : (a b : Cmd h.K) (l rs : List Rule) → Makes a l → Adds b rs → Makes (a >> b) (l ++ rs)
  unfolding Makes Adds
  Makes->> a b l rs ha hb k k'' e =
      let (k', ea, eb) = seq_done (a k) b k'' e in hb k' k'' l eb (ha k k' ea)

  Adds->> : (a b : Cmd h.K) (xs ys : List Rule) → Adds a xs → Adds b ys → Adds (a >> b) (xs ++ ys)
  unfolding Adds
  Adds->> a b xs ys ha hb k k'' l e holds =
      let (k', ea, eb) = seq_done (a k) b k'' e in
      rw (← append_assoc l xs ys) (hb k' k'' (l ++ xs) eb (ha k k' l ea holds))

  put-Adds : (r : Rule) → Adds (put h id r) (r ∷ [])
  unfolding Adds put
  put-Adds r k k' l e holds =
      lawful.append_done mangle (tunnel id) r k k' l
        (outcome_done k (h.append mangle (tunnel id) r k) k' e) holds

  skip-Adds : Adds skip []
  unfolding Adds
  skip-Adds k k' l e holds = rw append-nil (ground (arith, holds))

  dns-Adds : (gw : Text) → Adds (skip_dns h id gw) (dns_rules gw)
  unfolding skip_dns
  dns-Adds [] = skip-Adds
  dns-Adds (c ∷ gw) = Adds->> _ _ _ _ (put-Adds (dns_return udp (c ∷ gw))) (put-Adds _)

  quic-Adds : (quic : Bool) → Adds (when quic (put h id drop_quic)) (quic_rules quic)
  quic-Adds true = put-Adds drop_quic
  quic-Adds false = skip-Adds

  kept :
      (r : Rule) (k : h.K)
      → h.rules mangle (tunnel id) (outcome k (h.delete mangle prerouting r k)).1
        ≡ h.rules mangle (tunnel id) k
  kept r k = elim (outcome_state k (h.delete mangle prerouting r k)) [
    | inl e ↦ lawful.delete_other mangle prerouting (tunnel id) r k _ e (λ q. cc)
    | inr e ↦ rw e
  ]

  -- Deleting the old jump and appending the new one leave the tunnel's chain alone.
  unjump-Adds : (r : Rule) → Adds (attempt (h.delete mangle prerouting r)) []
  unfolding Adds
  unjump-Adds r k k' l e holds = ground (arith, kept r k, append-nil l)

  jump-Adds : (r : Rule) → Adds (exec (h.append mangle prerouting r)) []
  unfolding Adds
  jump-Adds r k k' l e holds =
      rw
        (
          append-nil,
          lawful.append_other mangle prerouting (tunnel id) r k k'
              (outcome_done k (h.append mangle prerouting r k) k' e) (λ q. cc),
        )
        holds

  flushed :
      (k : h.K) (o : Outcome h.K)
      → h.clear_chain mangle (tunnel id) k ≡ o
      → Holds [] (outcome k o).1
  flushed k (done k₁) e = lawful.clear_chain_done mangle (tunnel id) k k₁ e
  flushed k (failed m) e = absurd (flushes k m e)

  prepare_chain-Makes : Makes (prepare_chain h id) []
  unfolding Makes prepare_chain
  prepare_chain-Makes k k' e = elim (Bool-cases (h.chain_exists mangle (tunnel id) k)) [
    | inl old ↦
        (let f = flushed k (h.clear_chain mangle (tunnel id) k) refl in
          let e' = rw (old, prepare_chain) at e in ground arith)
    | inr new ↦
        (let e' = rw (new, prepare_chain) at e in
          lawful.new_chain_done mangle (tunnel id) k k'
            (outcome_done k (h.new_chain mangle (tunnel id) k) k' e'))
  ]

  prepare-Makes : Makes (check h.open_iptables >> prepare_chain h id) []
  unfolding Makes
  prepare-Makes k k' e =
      let (k₁, e₁, e₂) = seq_done (check h.open_iptables k) (prepare_chain h id) k' e in
      prepare_chain-Makes k₁ k' e₂

  module _ (tun : Text) (port mark : ℕ) (gateway flow : Text) (mss : ℤ) where
    setup-Makes :
        Makes
          (setup_tproxy h id tun port mark gateway flow mss)
          (chain_rules port mark (trim_space gateway) (drop_quic_vision flow) (mss_or_default mss))
    unfolding setup_tproxy
    setup-Makes =
        subst (Makes _) (regroup (dns_rules (trim_space gateway)) (quic_rules quic) _ _ _ _ _) (
          Makes->> _ _ _ _
            (Makes->> _ _ _ _
              (Makes->> _ _ _ _
                (Makes->> _ _ _ _
                  (Makes->> _ _ _ _
                    (Makes->> _ _ _ _
                      (Makes->> _ _ _ _
                        (Makes->> _ _ _ _
                          (Makes->> _ _ _ _ prepare-Makes (unjump-Adds (jump_from tun id)))
                          (dns-Adds (trim_space gateway)))
                        (put-Adds icmp_return))
                      (put-Adds (set_mss (mss_or_default mss))))
                    (put-Adds (tproxy tcp port mark)))
                  (quic-Adds quic))
                (put-Adds (tproxy udp port mark)))
              (put-Adds return_all))
            (jump-Adds (jump_from tun id)))
      where
        quic : Bool
        quic = drop_quic_vision flow

    -- SetupTProxy, where it succeeds, leaves exactly these rules in the tunnel's chain, whatever
    -- stood there before, and ends PREROUTING with the jump to it.
    pub setup_tproxy_rules :
        (k k' : h.K)
        → setup_tproxy h id tun port mark gateway flow mss k ≡ (none, k')
        → (h.rules mangle (tunnel id) k'
            ≡ some (
                chain_rules port mark
                  (trim_space gateway)
                  (drop_quic_vision flow)
                  (mss_or_default mss)))
          × ((l : List Rule) × (h.rules mangle prerouting k' ≡ some (l ++ jump_from tun id ∷ [])))
    unfolding Makes setup_tproxy
    setup_tproxy_rules k k' e = (setup-Makes k k' e, jumped)
      where
        jumped :
            (l : List Rule) × (h.rules mangle prerouting k' ≡ some (l ++ jump_from tun id ∷ []))
        jumped =
            let (k₁, e₁, e₂) =
              seq_done _ (exec (h.append mangle prerouting (jump_from tun id))) k' e in
            let (l, at) = lawful.prerouting_rules k₁ in
            (
              l,
              lawful.append_done mangle prerouting (jump_from tun id) k₁ k' l
                  (outcome_done k₁ _ k' e₂) at,
            )

    -- Where SetupTProxy succeeds, every packet that walks the chain it leaves meets its fate: DNS for
    -- the gateway, ICMP and protocols other than TCP and UDP pass by the proxy, QUIC is dropped for a
    -- flow of the Vision kind, and all other TCP and UDP goes to the port with the tunnel's mark.
    pub setup_tproxy-walk :
        (k k' : h.K)
        → setup_tproxy h id tun port mark gateway flow mss k ≡ (none, k')
        → (l : List Rule) × (h.rules mangle (tunnel id) k' ≡ some l)
          × ((p : Packet)
              → walk l p ≡ fate port mark (trim_space gateway) (drop_quic_vision flow) p)
    setup_tproxy-walk k k' e = (
      chain_rules port mark (trim_space gateway) (drop_quic_vision flow) (mss_or_default mss),
      (setup_tproxy_rules k k' e).0,
      walk-chain_rules port mark (trim_space gateway) (drop_quic_vision flow) (mss_or_default mss),
    )
