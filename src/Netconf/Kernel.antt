-- ===== src/Netconf/Kernel.antt =====
-- What netconf needs of go-iptables, netlink and /proc, which are not in the repository: a kernel
-- state with commands that may fail, and the documented behaviour of the commands.
use xray2wg.Base.{ℕ, Bool, true, false, Option, none, some, List, [], ◌∷◌, ◌++◌, ◌≡◌, ◌≢◌, Text}
use xray2wg.Base.Int.{ℤ}
use xray2wg.Domain.Errors.{GoError, plain}

pub data Table : Type 0 where
  mangle filter nat : Table

-- `tunnel n` is the chain XRAY2WG_n.
pub data Chain : Type 0 where
  prerouting forward postrouting docker_user : Chain
  tunnel : ℕ → Chain

pub data Proto : Type 0 where
  tcp udp : Proto

-- The argument lists that the program hands to iptables.
pub data Rule : Type 0 where
  dns_return : Proto → Text → Rule
  icmp_return : Rule
  set_mss : ℤ → Rule
  tproxy : Proto → ℕ → ℕ → Rule
  drop_quic : Rule
  return_all : Rule
  jump_from : Text → ℕ → Rule
  accept_out accept_in : Text → Rule
  masquerade : Text → Text → Rule
  masquerade_icmp : Text → Rule

-- What a command of the outside leaves: a new state, or an error and the old state.
pub data Outcome (K : Type 0) : Type 0 where
  done : K → Outcome K
  failed : Text → Outcome K

pub record Kernel : Type 1 where
  pub K : Type 0
  -- iptables.New
  pub open_iptables : K → Option Text
  -- `iptables -S`: the rules of a chain, or none where there is no such chain
  pub rules : Table → Chain → K → Option (List Rule)
  pub chain_exists : Table → Chain → K → Bool
  pub new_chain : Table → Chain → K → Outcome K
  pub clear_chain : Table → Chain → K → Outcome K
  pub delete_chain : Table → Chain → K → Outcome K
  pub append : Table → Chain → Rule → K → Outcome K
  pub insert_first : Table → Chain → Rule → K → Outcome K
  pub delete : Table → Chain → Rule → K → Outcome K
  -- netlink: rules are pairs of a mark and a table
  pub rule_add : ℕ → ℕ → K → Outcome K
  pub rule_del : ℕ → ℕ → K → Outcome K
  pub rule_list : K → Option (List (ℕ × ℕ))
  pub find_loopback : K → Option Text
  pub route_replace : ℕ → K → Outcome K
  pub route_list : ℕ → K → Option (List ℕ)
  pub route_del : ℕ → K → Outcome K
  pub find_link : Text → K → Option Text
  pub parse_addr : Text → Option Text
  pub addr_replace : Text → Text → K → Outcome K
  pub link_set_up : Text → K → Outcome K
  -- a write under /proc/sys/net/ipv4/conf/<tun>
  pub write_sysctl : Text → Text → Text → K → Outcome K

-- A command of the program: the Go error that it returns, `none` for nil, and the state that it
-- leaves, also where it fails.
abbrev pub Cmd : Type 0 → Type 0
Cmd K = K → Option GoError × K

module _ {K : Type 0} where
  infixl 5 ◌>>◌
  -- `if err := a(); err != nil { return err }; b()`
  abbrev pub ◌>>◌ : Cmd K → Cmd K → Cmd K
  ◌>>◌ a b k = let (e, k') = a k in elim e [ none ↦ b k' | some m ↦ (some m, k') ]

  abbrev pub skip : Cmd K
  skip k = (none, k)

  abbrev pub outcome : K → Outcome K → Option GoError × K
  outcome k (done k') = (none, k')
  outcome k (failed m) = (some (plain m), k)

  abbrev pub exec : (K → Outcome K) → Cmd K
  exec f k = outcome k (f k)

  -- `_ = f()`
  abbrev pub attempt : (K → Outcome K) → Cmd K
  attempt f k = (none, (outcome k (f k)).1)

  abbrev pub check : (K → Option Text) → Cmd K
  check f k = (elim (f k) [ none ↦ none | some m ↦ some (plain m) ], k)

  abbrev pub when : Bool → Cmd K → Cmd K
  when true c = c
  when false c = skip

-- The documented behaviour of iptables on which the theorems rest.
pub record IsLawful (h : Kernel) : Type 0 where
  -- the chain PREROUTING of the mangle table is built in
  pub prerouting_rules : (k : h.K) → (l : List Rule) × (h.rules mangle prerouting k ≡ some l)
  pub new_chain_done :
      (t : Table) (c : Chain) (k k' : h.K) → h.new_chain t c k ≡ done k' → h.rules t c k' ≡ some []
  pub clear_chain_done :
      (t : Table) (c : Chain) (k k' : h.K)
      → h.clear_chain t c k ≡ done k'
      → h.rules t c k' ≡ some []
  pub append_done :
      (t : Table) (c : Chain) (r : Rule) (k k' : h.K) (l : List Rule)
      → h.append t c r k ≡ done k'
      → h.rules t c k ≡ some l
      → h.rules t c k' ≡ some (l ++ r ∷ [])
  pub append_other :
      (t : Table) (c d : Chain) (r : Rule) (k k' : h.K)
      → h.append t c r k ≡ done k'
      → c ≢ d
      → h.rules t d k' ≡ h.rules t d k
  pub insert_done :
      (t : Table) (c : Chain) (r : Rule) (k k' : h.K) (l : List Rule)
      → h.insert_first t c r k ≡ done k'
      → h.rules t c k ≡ some l
      → h.rules t c k' ≡ some (r ∷ l)
  pub delete_other :
      (t : Table) (c d : Chain) (r : Rule) (k k' : h.K)
      → h.delete t c r k ≡ done k'
      → c ≢ d
      → h.rules t d k' ≡ h.rules t d k
  pub delete_chain_done :
      (t : Table) (c : Chain) (k k' : h.K) → h.delete_chain t c k ≡ done k' → h.rules t c k' ≡ none
