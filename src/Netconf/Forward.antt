-- ===== src/Netconf/Forward.antt =====
-- backend/internal/infrastructure/netconf/forward_linux.go: the rules that let a tunnel's traffic through.
use xray2wg.Base.{Option, none, some, Text, if◌then◌else◌}
use xray2wg.Domain.Errors.{GoError, plain}
use xray2wg.Netconf.Kernel.{
  Kernel, Cmd, done, failed, filter, forward, docker_user, accept_in, accept_out, ◌>>◌, exec,
  attempt, check, Chain,
}

module _ (h : Kernel) where
  pub delete_accepts : Chain → Text → Cmd h.K
  delete_accepts c tun =
      attempt (h.delete filter c (accept_out tun)) >> attempt (h.delete filter c (accept_in tun))

  -- teardownForwardRules
  pub delete_all_accepts : Text → Cmd h.K
  unfolding delete_accepts
  delete_all_accepts tun = delete_accepts forward tun >> delete_accepts docker_user tun

  -- The two rules at the head of FORWARD; the first is taken back where the second fails.
  pub accept_in_forward : Text → Cmd h.K
  accept_in_forward tun = exec (h.insert_first filter forward (accept_in tun)) >> λ k.
      elim (h.insert_first filter forward (accept_out tun) k) [
        | done k' ↦ (none, k')
        | failed m ↦ (some (plain m), (attempt (h.delete filter forward (accept_in tun)) k).1)
      ]

  -- The two rules at the head of DOCKER-USER: whether both went in, and the state.
  pub accept_in_docker : Text → h.K → Option GoError × h.K
  unfolding delete_accepts
  accept_in_docker tun k =
      let (e_out, k₁) = exec (h.insert_first filter docker_user (accept_out tun)) k in
      let (e_in, k₂) = exec (h.insert_first filter docker_user (accept_in tun)) k₁ in
      elim e_out [
        | some m ↦ (some m, (delete_accepts docker_user tun k₂).1)
        | none ↦ elim e_in [
          | some m ↦ (some m, (delete_accepts docker_user tun k₂).1)
          | none ↦ (none, k₂)
        ]
      ]

  pub setup_forward_rules : Text → Cmd h.K
  unfolding delete_all_accepts accept_in_forward accept_in_docker
  setup_forward_rules tun = check h.open_iptables >> delete_all_accepts tun >> λ k.
      if h.chain_exists filter docker_user k
      then (let (e, k') = accept_in_docker tun k in
          elim e [ none ↦ (none, k') | some m ↦ accept_in_forward tun k' ])
      else accept_in_forward tun k

  pub teardown_forward_rules : Text → Cmd h.K
  unfolding delete_all_accepts
  teardown_forward_rules tun = check h.open_iptables >> delete_all_accepts tun
