-- ===== src/Tests/Iptables.antt =====
-- Witness: a kernel with two chains of the mangle table, on which SetupTProxy succeeds.
use xray2wg.Base.{
  zero, suc, Bool, true, false, Option, none, some, List, [], ◌∷◌, ◌++◌, Text, codes, ◌≡◌, ◌≢◌,
  refl, arith, trim_space, to_lower, contains_text, ◌⊎◌, inl, inr,
}
use xray2wg.Base.Int.{pos}
use xray2wg.Netconf.Kernel.{
  Kernel, IsLawful, Table, mangle, filter, nat, Chain, prerouting, forward, postrouting,
  docker_user, tunnel, Rule, Outcome, done, failed,
}
use xray2wg.Netconf.Rules.{Packet, walk}
use xray2wg.Netconf.TProxy.{setup_tproxy, drop_quic_vision}
use xray2wg.Netconf.TProxy.Chain.{setup_tproxy-walk, fate}

-- The rules of the tunnel's chain, where it exists, and those of PREROUTING.
abbrev pub State : Type 0
State = Option (List Rule) × List Rule

abbrev rules : Table → Chain → State → Option (List Rule)
rules mangle prerouting k = some k.1
rules mangle (tunnel zero) k = k.0
rules t c k = none

abbrev exists : Table → Chain → State → Bool
exists mangle prerouting k = true
exists mangle (tunnel zero) (some l, p) = true
exists t c k = false

-- A chain is made, or flushed.
abbrev clear : Table → Chain → State → Outcome State
clear mangle prerouting k = done (k.0, [])
clear mangle (tunnel zero) k = done (some [], k.1)
clear t c k = failed (codes "no such chain")

abbrev append : Table → Chain → Rule → State → Outcome State
append mangle prerouting r k = done (k.0, k.1 ++ (r ∷ []))
append mangle (tunnel zero) r (some l, p) = done (some (l ++ (r ∷ [])), p)
append t c r k = failed (codes "no such chain")

abbrev insert_first : Table → Chain → Rule → State → Outcome State
insert_first mangle prerouting r k = done (k.0, r ∷ k.1)
insert_first mangle (tunnel zero) r (some l, p) = done (some (r ∷ l), p)
insert_first t c r k = failed (codes "no such chain")

abbrev delete_chain : Table → Chain → State → Outcome State
delete_chain mangle (tunnel zero) k = done (none, k.1)
delete_chain t c k = failed (codes "no such chain")

abbrev pub kernel : Kernel
kernel = record {
  K = State;
  open_iptables = λ k. none;
  rules = rules;
  chain_exists = exists;
  new_chain = clear;
  clear_chain = clear;
  delete_chain = delete_chain;
  append = append;
  insert_first = insert_first;
  delete = λ t c r k. failed (codes "no such rule");
  rule_add = λ m t k. done k;
  rule_del = λ m t k. done k;
  rule_list = λ k. some [];
  find_loopback = λ k. none;
  route_replace = λ t k. done k;
  route_list = λ t k. some [];
  route_del = λ t k. done k;
  find_link = λ t k. none;
  parse_addr = λ a. none;
  addr_replace = λ a t k. done k;
  link_set_up = λ t k. done k;
  write_sysctl = λ t n v k. done k;
}

clear_done : (t : Table) (c : Chain) (k k' : State) → clear t c k ≡ done k' → rules t c k' ≡ some []
clear_done mangle prerouting k k' e = ground arith
clear_done mangle (tunnel zero) k k' e = ground arith
clear_done mangle (tunnel (suc n)) k k' e = ground arith
clear_done mangle forward k k' e = ground arith
clear_done mangle postrouting k k' e = ground arith
clear_done mangle docker_user k k' e = ground arith
clear_done filter c k k' e = ground arith
clear_done nat c k k' e = ground arith

append_done :
    (t : Table) (c : Chain) (r : Rule) (k k' : State) (l : List Rule)
    → append t c r k ≡ done k'
    → rules t c k ≡ some l
    → rules t c k' ≡ some (l ++ (r ∷ []))
append_done mangle prerouting r k k' l e h = ground arith
append_done mangle (tunnel zero) r (some m, p) k' l e h = ground arith
append_done mangle (tunnel zero) r (none, p) k' l e h = ground arith
append_done mangle (tunnel (suc n)) r k k' l e h = ground arith
append_done mangle forward r k k' l e h = ground arith
append_done mangle postrouting r k k' l e h = ground arith
append_done mangle docker_user r k k' l e h = ground arith
append_done filter c r k k' l e h = ground arith
append_done nat c r k k' l e h = ground arith

insert_done :
    (t : Table) (c : Chain) (r : Rule) (k k' : State) (l : List Rule)
    → insert_first t c r k ≡ done k'
    → rules t c k ≡ some l
    → rules t c k' ≡ some (r ∷ l)
insert_done mangle prerouting r k k' l e h = ground arith
insert_done mangle (tunnel zero) r (some m, p) k' l e h = ground arith
insert_done mangle (tunnel zero) r (none, p) k' l e h = ground arith
insert_done mangle (tunnel (suc n)) r k k' l e h = ground arith
insert_done mangle forward r k k' l e h = ground arith
insert_done mangle postrouting r k k' l e h = ground arith
insert_done mangle docker_user r k k' l e h = ground arith
insert_done filter c r k k' l e h = ground arith
insert_done nat c r k k' l e h = ground arith

-- The two chains, as the rest of the state sees a change of one.
same_rest :
    (c d : Chain) (k k' : State)
    → c ≢ d
    → (c ≡ prerouting) × (k'.0 ≡ k.0) ⊎ (c ≡ tunnel zero) × (k'.1 ≡ k.1)
    → rules mangle d k' ≡ rules mangle d k
same_rest c prerouting k k' ne h = ground arith
same_rest c (tunnel zero) k k' ne h = ground arith
same_rest c (tunnel (suc n)) k k' ne h = refl
same_rest c forward k k' ne h = refl
same_rest c postrouting k k' ne h = refl
same_rest c docker_user k k' ne h = refl

append_other :
    (t : Table) (c d : Chain) (r : Rule) (k k' : State)
    → append t c r k ≡ done k'
    → c ≢ d
    → rules t d k' ≡ rules t d k
append_other mangle prerouting d r k k' e ne =
    same_rest prerouting d k k' ne (inl (refl, ground arith))
append_other mangle (tunnel zero) d r (some l, p) k' e ne =
    same_rest (tunnel zero) d (some l, p) k' ne (inr (refl, ground arith))
append_other mangle (tunnel zero) d r (none, p) k' e ne = ground arith
append_other mangle (tunnel (suc n)) d r k k' e ne = ground arith
append_other mangle forward d r k k' e ne = ground arith
append_other mangle postrouting d r k k' e ne = ground arith
append_other mangle docker_user d r k k' e ne = ground arith
append_other filter c d r k k' e ne = ground arith
append_other nat c d r k k' e ne = ground arith

delete_chain_done :
    (t : Table) (c : Chain) (k k' : State) → delete_chain t c k ≡ done k' → rules t c k' ≡ none
delete_chain_done mangle prerouting k k' e = ground arith
delete_chain_done mangle (tunnel zero) k k' e = ground arith
delete_chain_done mangle (tunnel (suc n)) k k' e = ground arith
delete_chain_done mangle forward k k' e = ground arith
delete_chain_done mangle postrouting k k' e = ground arith
delete_chain_done mangle docker_user k k' e = ground arith
delete_chain_done filter c k k' e = ground arith
delete_chain_done nat c k k' e = ground arith

kernel_lawful : IsLawful kernel
kernel_lawful = record {
  prerouting_rules = λ k. (k.1, refl);
  new_chain_done = clear_done;
  clear_chain_done = clear_done;
  append_done = append_done;
  append_other = append_other;
  insert_done = insert_done;
  delete_other = λ t c d r k k' e ne. ground arith;
  delete_chain_done = delete_chain_done;
}

clears : (k : State) (m : Text) → clear mangle (tunnel 0) k ≢ failed m
clears k m e = ground arith

-- What the set-up leaves of an empty kernel.
abbrev after_setup : State
after_setup =
    (setup_tproxy kernel 0 (codes "tun-wg0") 13000 4096 (codes "10.0.0.1")
      (codes "xtls-rprx-vision") (pos 0) (none, [])).1

setup_tproxy-walk_example :
    (l : List Rule) × (rules mangle (tunnel 0) after_setup ≡ some l)
    × ((p : Packet)
        → walk l p
          ≡ fate 13000 4096
              (trim_space (codes "10.0.0.1"))
              (drop_quic_vision (codes "xtls-rprx-vision"))
              p)
unfolding setup_tproxy trim_space drop_quic_vision to_lower contains_text
setup_tproxy-walk_example =
    setup_tproxy-walk kernel kernel_lawful 0 clears (codes "tun-wg0") 13000 4096 (codes "10.0.0.1")
      (codes "xtls-rprx-vision") (pos 0) (none, []) after_setup refl
