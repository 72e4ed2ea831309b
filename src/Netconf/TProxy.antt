-- ===== src/Netconf/TProxy.antt =====
-- backend/internal/infrastructure/netconf/tproxy_linux.go: the mangle chain that sends a tunnel's traffic to its proxy.
pub mod Chain
use xray2wg.Base.{
  ℕ, Bool, false, Text, codes, is_empty, trim_space, to_lower, contains_text, if◌then◌else◌,
}
use xray2wg.Base.Int.{ℤ, pos, leb_ℤ}
use xray2wg.Netconf.Kernel.{
  Kernel, Cmd, Rule, mangle, prerouting, tunnel, tcp, udp, dns_return, icmp_return, set_mss, tproxy,
  drop_quic, return_all, jump_from, ◌>>◌, skip, exec, attempt, check, when,
}

abbrev pub default_mss_clamp : ℤ
default_mss_clamp = pos 1280

-- dropQUICVision
unfoldable pub drop_quic_vision : Text → Bool
drop_quic_vision flow =
    let f = to_lower (trim_space flow) in
    if is_empty f
    then false
    else if contains_text f (codes "vision-udp443")
    then false
    else contains_text f (codes "vision")

module _ (h : Kernel) where
  -- The chain exists and is flushed, or it is made.
  unfoldable pub prepare_chain : ℕ → Cmd h.K
  prepare_chain id k =
      if h.chain_exists mangle (tunnel id) k
      then attempt (h.clear_chain mangle (tunnel id)) k
      else exec (h.new_chain mangle (tunnel id)) k

  unfoldable pub put : ℕ → Rule → Cmd h.K
  put id r = exec (h.append mangle (tunnel id) r)

  -- DNS to the gateway itself is left to the dns-in inbound.
  unfoldable pub skip_dns : ℕ → Text → Cmd h.K
  unfolding put
  skip_dns id gw =
      if is_empty gw then skip else put id (dns_return udp gw) >> put id (dns_return tcp gw)

  unfoldable pub setup_tproxy : ℕ → Text → ℕ → ℕ → Text → Text → ℤ → Cmd h.K
  unfolding prepare_chain put skip_dns
  setup_tproxy id tun port fwmark gateway flow mss_clamp =
      let mss = if leb_ℤ mss_clamp (pos 0) then default_mss_clamp else mss_clamp in
      check h.open_iptables
      >> prepare_chain id
      >> attempt (h.delete mangle prerouting (jump_from tun id))
      >> skip_dns id (trim_space gateway)
      >> put id icmp_return
      >> put id (set_mss mss)
      >> put id (tproxy tcp port fwmark)
      >> when (drop_quic_vision flow) (put id drop_quic)
      >> put id (tproxy udp port fwmark)
      >> put id return_all
      >> exec (h.append mangle prerouting (jump_from tun id))

  pub teardown_tproxy : ℕ → Text → ℕ → Cmd h.K
  teardown_tproxy id tun fwmark =
      check h.open_iptables >> attempt (h.delete mangle prerouting (jump_from tun id)) >> λ k.
      when (h.chain_exists mangle (tunnel id) k)
        (attempt (h.clear_chain mangle (tunnel id)) >> attempt (h.delete_chain mangle (tunnel id)))
        k
