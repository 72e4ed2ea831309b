-- ===== src/Netconf/Nat.antt =====
-- backend/internal/infrastructure/netconf/nat_linux.go: the masquerading of a tunnel's subnet.
use xray2wg.Base.{Text, is_empty, if◌then◌else◌}
use xray2wg.Netconf.Kernel.{
  Kernel, Cmd, nat, postrouting, masquerade, masquerade_icmp, ◌>>◌, skip, exec, attempt, check,
}

module _ (h : Kernel) where
  pub teardown_nat_masquerade : Text → Text → Cmd h.K
  teardown_nat_masquerade tun subnet =
      if is_empty subnet
      then skip
      else check h.open_iptables
        >> attempt (h.delete nat postrouting (masquerade subnet tun))
        >> attempt (h.delete nat postrouting (masquerade_icmp subnet))

  -- The error of the teardown that comes first is ignored.
  pub setup_nat_masquerade : Text → Text → Cmd h.K
  unfolding teardown_nat_masquerade
  setup_nat_masquerade tun subnet =
      if is_empty subnet
      then skip
      else check h.open_iptables
        >> (λ k. skip (teardown_nat_masquerade tun subnet k).1)
        >> exec (h.insert_first nat postrouting (masquerade subnet tun))
