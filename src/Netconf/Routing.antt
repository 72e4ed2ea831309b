-- ===== src/Netconf/Routing.antt =====
-- netconf/routing_linux.go, address_linux.go and tun_sysctl_linux.go. A failed RuleAdd and a failed
-- AddrReplace are logged only.
use xray2wg.Base.{
  ℕ, itoa, none, some, List, [], ◌∷◌, Text, codes, ◌==◌, nat_eq, ◌&&◌, ◌++◌, if◌then◌else◌,
}
use xray2wg.Domain.Errors.{plain, wrap}
use xray2wg.Netconf.Kernel.{Kernel, Cmd, done, failed, ◌>>◌, exec, attempt, check}

module _ (h : Kernel) where
  pub setup_return_route : ℕ → ℕ → Cmd h.K
  setup_return_route fwmark table =
      attempt (h.rule_add fwmark table) >> check h.find_loopback >> λ k.
      elim (h.route_replace table k) [
        | done k' ↦ (none, k')
        | failed m ↦ (some (wrap (codes "route replace table=" ++ itoa table) (plain m)), k)
      ]

  delete_rules : ℕ → ℕ → List (ℕ × ℕ) → Cmd h.K
  delete_rules fwmark table [] k = (none, k)
  delete_rules fwmark table ((m, t) ∷ rs) k =
      delete_rules fwmark table rs
        (if m == fwmark && t == table then (attempt (h.rule_del m t) k).1 else k)

  delete_routes : List ℕ → Cmd h.K
  delete_routes [] k = (none, k)
  delete_routes (r ∷ rs) k = delete_routes rs (attempt (h.route_del r) k).1

  pub teardown_return_route : ℕ → ℕ → Cmd h.K
  unfolding delete_rules delete_routes
  teardown_return_route fwmark table k = elim (h.rule_list k) [
    | none ↦ (some (plain (codes "rule list")), k)
    | some rs ↦
        (let k' = (delete_rules fwmark table rs k).1 in
          elim (h.route_list table k') [
            | none ↦ (some (plain (codes "route list")), k')
            | some routes ↦ delete_routes routes k'
          ])
  ]

  pub assign_tun : Text → Text → Cmd h.K
  assign_tun tun cidr =
      check (h.find_link tun)
      >> check (λ _. h.parse_addr cidr)
      >> attempt (h.addr_replace tun cidr)
      >> exec (h.link_set_up tun)

  pub prepare_tun : Text → Cmd h.K
  prepare_tun tun =
      attempt (h.write_sysctl tun (codes "rp_filter") (codes "0"))
      >> attempt (h.write_sysctl tun (codes "accept_local") (codes "1"))
