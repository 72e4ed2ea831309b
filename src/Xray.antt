-- ===== src/Xray.antt =====
-- backend/internal/infrastructure/xrayinfra/manager.go: the table of embedded Xray instances.
-- Building, loading and starting an instance is xray-core's: its error is an argument.
use xray2wg.Base.{
  ℕ, Option, none, some, List, [], ◌∷◌, Text, codes, insert, erase, ◌++◌, itoa, nat_eq, ◌≡◌, true,
  false, is_some, lookup, ◌==◌, if◌then◌else◌, is_some-lookup-insert, is_some-lookup-erase, arith,
}
use xray2wg.Domain.{VlessNode, BalancingStrategy}
use xray2wg.Domain.Errors.{plain, Result, ok, err}

-- What an instance was built from.
pub record Instance : Type 0 where
  pub port : ℕ
  pub fwmark : ℕ
  pub gateway : Text
  pub nodes : List VlessNode
  pub strategy : BalancingStrategy

abbrev pub Instances : Type 0
Instances = List (ℕ × Instance)

-- Manager.Start: the new instance takes the place of an old one, which is closed.
pub start : Option Text → ℕ → Instance → Instances → Result Instances
start fault id i is = elim i.nodes [
  | [] ↦ err (plain (codes "xray Start: no nodes provided for tunnel " ++ itoa id))
  | n ∷ ns ↦ elim fault [ some m ↦ err (plain m) | none ↦ ok (insert id i is) ]
]

-- Manager.Stop: what Close reports is ignored by every caller.
pub stop : ℕ → Instances → Instances
stop id is = erase id is

pub is_some-stop :
    (id j : ℕ) (is : Instances)
    → is_some (lookup j (stop id is)) ≡ (if id == j then false else is_some (lookup j is))
unfolding stop
is_some-stop id j is = is_some-lookup-erase id j is

pub is_some-start :
    (fault : Option Text) (id : ℕ) (i : Instance) (is is' : Instances) (j : ℕ)
    → start fault id i is ≡ ok is'
    → is_some (lookup j is') ≡ (if id == j then true else is_some (lookup j is))
unfolding start
is_some-start fault id i is is' j e = ground (arith, is_some-lookup-insert id j i is)
