-- ===== src/Netconf/Rules.antt =====
-- The meaning of a tunnel's mangle chain: what happens to a packet that walks it, as iptables
-- documents the targets RETURN, DROP and TPROXY (which end the walk) and TCPMSS (which does not).
use xray2wg.Base.{
  ℕ, Bool, true, false, List, [], ◌∷◌, Text, ◌==◌, nat_eq, text_eq, ◌&&◌, if◌then◌else◌,
}
use xray2wg.Netconf.Kernel.{
  Rule, dns_return, icmp_return, set_mss, tproxy, drop_quic, return_all, Proto, tcp, udp,
}

pub data Payload : Type 0 where
  over : Proto → ℕ → Payload
  icmp other : Payload

pub record Packet : Type 0 where
  pub dst : Text
  pub payload : Payload

pub data Verdict : Type 0 where
  returned dropped : Verdict
  proxied : ℕ → ℕ → Verdict

abbrev pub same_proto : Proto → Proto → Bool
same_proto tcp tcp = true
same_proto udp udp = true
same_proto tcp udp = false
same_proto udp tcp = false

abbrev pub to_port : Proto → ℕ → Payload → Bool
to_port p n (over q m) = same_proto p q && m == n
to_port p n icmp = false
to_port p n other = false

abbrev pub of_proto : Proto → Payload → Bool
of_proto p (over q m) = same_proto p q
of_proto p icmp = false
of_proto p other = false

abbrev pub is_icmp : Payload → Bool
is_icmp (over q m) = false
is_icmp icmp = true
is_icmp other = false

-- The walk of a packet through a mangle chain; rules of other tables do not stand in one.
unfoldable pub walk : List Rule → Packet → Verdict
walk [] p = returned
walk (dns_return q gw ∷ rs) p =
    if p.dst == gw && to_port q 53 p.payload then returned else walk rs p
walk (icmp_return ∷ rs) p = if is_icmp p.payload then returned else walk rs p
walk (set_mss n ∷ rs) p = walk rs p
walk (tproxy q port mark ∷ rs) p = if of_proto q p.payload then proxied port mark else walk rs p
walk (drop_quic ∷ rs) p = if to_port udp 443 p.payload then dropped else walk rs p
walk (return_all ∷ rs) p = returned
walk (r ∷ rs) p = walk rs p
