-- ===== src/Tunnel/Create.antt =====
-- tunnel.go, in backend/internal/service: Create. The key pair, its encryption, the new row's id and the database's faults are
-- arguments; of SetNodes, whose error is only logged, the list of nodes that it is given is kept.
pub mod Defaults
use xray2wg.Base.{
  ℕ, ◌++◌, Bool, true, false, Option, none, some, List, [], ◌∷◌, Text, codes, itoa, is_empty,
  trim_space, lookup, insert, nat_eq, if◌then◌else◌,
}
use xray2wg.Base.Int.{ℤ, pos, leb_ℤ}
use xray2wg.Domain.{WgInterface, WgStatus, BalancingStrategy, unset, round_robin}
use xray2wg.Domain.Errors.{GoError, plain, Result, ok, err}
use xray2wg.Tunnel.Repo.{Rows, update}
use xray2wg.Tunnel.World.{World, Event, created, compute_runtime, or_round_robin, log}

-- The arguments of Create.
pub record NewTunnel : Type 0 where
  pub name : Text
  pub listen : ℕ
  pub wg_addr : Text
  pub dns : Text
  pub mtu : ℤ
  pub mss_clamp : ℤ
  pub sub_id : Option ℕ
  pub node_id : Option ℕ
  pub node_ids : List ℕ
  pub strategy : BalancingStrategy

-- What the outside answers.
pub record Outside : Type 0 where
  pub keypair : Result (Text × Text)
  pub encrypt : Text → Result Text
  pub create_fault : Option Text
  pub update_fault : Option Text
  pub fields_fault : Option Text
  pub next_id : ℕ

-- `if x <= 0 { x = d }`
abbrev pub or_positive : ℤ → ℤ → ℤ
or_positive d x = if leb_ℤ x (pos 0) then d else x

-- TunnelRepo.Create; the column of the strategy gets its default.
pub create_row : ℕ → WgInterface → Text → Rows → Rows
create_row id iface key rows =
    insert id (record iface { id = id; balancing_strategy = round_robin }, key) rows

-- TunnelRepo.UpdateRuntimeFields
pub update_runtime_fields : Option Text → ℕ → Text → ℕ → ℕ → Rows → Rows
update_runtime_fields (some m) id tun port fwmark rows = rows
update_runtime_fields none id tun port fwmark rows = elim (lookup id rows) [
  | none ↦ rows
  | some (old, key) ↦
      insert id (record old { tun_name = tun; xray_port = port; fwmark = fwmark }, key) rows
]

-- The interface before it has an id.
unfoldable pub draft : NewTunnel → Text → WgInterface
draft n public_key = record {
  id = 0;
  name = n.name;
  tun_name = [];
  public_key = public_key;
  listen_port = n.listen;
  wg_address = n.wg_addr;
  dns = trim_space n.dns;
  mtu = or_positive (pos 1420) n.mtu;
  mss_clamp = or_positive (pos 1280) n.mss_clamp;
  subscription_id = n.sub_id;
  active_node_id = n.node_id;
  xray_port = 0;
  fwmark = 0;
  status = WgStatus.stopped;
  error_message = [];
  uptime_started = none;
  balancing_strategy = or_round_robin n.strategy;
}

-- `fmt.Sprintf("10.100.%d.1", id)`
abbrev pub default_host : ℕ → Text
default_host id = codes "10.100." ++ itoa id ++ codes ".1"

-- The interface once it has its id: address, DNS and runtime fields are filled in.
unfoldable pub filled : ℕ → WgInterface → WgInterface
filled id i =
    let r = compute_runtime id in
    record i {
      id = id;
      wg_address =
          if is_empty (trim_space i.wg_address)
          then default_host id ++ codes "/24"
          else i.wg_address;
      dns = if is_empty (trim_space i.dns) then default_host id else i.dns;
      tun_name = r.tun;
      xray_port = r.port;
      fwmark = r.fwmark;
    }

-- `effectiveNodeIDs`
unfoldable pub effective_node_ids : NewTunnel → List ℕ
effective_node_ids n = elim n.node_ids [
  | [] ↦ elim n.node_id [ none ↦ [] | some id ↦ id ∷ [] ]
  | id ∷ ids ↦ id ∷ ids
]

module _ {K : Type 0} where
  -- What follows the creation of the row.
  pub complete : NewTunnel → Outside → WgInterface → World K → World K
  complete n o i w = log (created i.id) (record w {
    rows =
        update_runtime_fields o.fields_fault i.id i.tun_name i.xray_port i.fwmark
          (update o.update_fault i w.rows).1;
  })

  -- Create: the interface and the nodes handed to SetNodes, or the error.
  unfoldable pub create : NewTunnel → Outside → World K → Result (WgInterface × List ℕ) × World K
  create n o w = elim o.keypair [
    | err e ↦ (err e, w)
    | ok keys ↦ elim (o.encrypt keys.0) [
      | err e ↦ (err e, w)
      | ok enc ↦ elim o.create_fault [
        | some m ↦ (err (plain m), w)
        | none ↦
            (let i = filled o.next_id (draft n keys.1) in
              (
                ok (i, effective_node_ids n),
                complete n o i
                    (record w { rows = create_row o.next_id (draft n keys.1) enc w.rows }),
              ))
      ]
    ]
  ]
