-- ===== src/Tunnel/Create/Defaults.antt =====
-- What a new tunnel has.
use xray2wg.Base.{
  ℕ, true, false, none, some, List, Text, is_empty, trim_space, lookup, nat_eq, ◌≡◌, refl, arith,
  Bool-cases, Option-cases, inl, inr, trim_space_full, is_space, lookup-insert, beq_refl, ◌∙◌, ap,
}
use xray2wg.Base.Int.{ℤ, pos, ltb_ℤ}
use xray2wg.Domain.{WgInterface, round_robin}
use xray2wg.Domain.Errors.{ok, Result-cases}
use xray2wg.Tunnel.World.{World, compute_runtime}
use xray2wg.Tunnel.Repo.{Rows, merge, update, lookup-update}
use xray2wg.Tunnel.Create.{
  NewTunnel, Outside, update_runtime_fields, create_row, or_positive, draft, filled, complete,
  create,
}

-- A tunnel that can be started: positive sizes, an address, a DNS server and its own runtime fields.
abbrev pub IsFilled : WgInterface → Type 0
IsFilled i =
    (ltb_ℤ (pos 0) i.mtu ≡ true)
    × (ltb_ℤ (pos 0) i.mss_clamp ≡ true)
    × (is_empty (trim_space i.wg_address) ≡ false)
    × (is_empty (trim_space i.dns) ≡ false)
    × (i.tun_name ≡ (compute_runtime i.id).tun)
    × (i.xray_port ≡ (compute_runtime i.id).port)
    × (i.fwmark ≡ (compute_runtime i.id).fwmark)

address_full : (id : ℕ) (i : WgInterface) → is_empty (trim_space (filled id i).wg_address) ≡ false
unfolding filled is_space
address_full id i = elim (Bool-cases (is_empty (trim_space i.wg_address))) [
  | inl blank ↦ rw (blank) (trim_space_full b'1' _ refl)
  | inr given ↦ rw (given) given
]

dns_full : (id : ℕ) (i : WgInterface) → is_empty (trim_space (filled id i).dns) ≡ false
unfolding filled is_space
dns_full id i = elim (Bool-cases (is_empty (trim_space i.dns))) [
  | inl blank ↦ rw (blank) (trim_space_full b'1' _ refl)
  | inr given ↦ rw (given) given
]

or_positive_lem : (d x : ℤ) → ltb_ℤ (pos 0) d ≡ true → ltb_ℤ (pos 0) (or_positive d x) ≡ true
or_positive_lem d x h = ground arith

filled-IsFilled :
    (n : NewTunnel) (public_key : Text) (id : ℕ) → IsFilled (filled id (draft n public_key))
unfolding filled draft
filled-IsFilled n public_key id = (
  or_positive_lem (pos 1420) n.mtu refl,
  or_positive_lem (pos 1280) n.mss_clamp refl,
  address_full id (draft n public_key),
  dns_full id (draft n public_key),
  refl,
  refl,
  refl,
)

lookup-update_runtime_fields :
    (i : WgInterface) (key : Text) (rows : Rows)
    → lookup i.id rows ≡ some (i, key)
    → lookup i.id (update_runtime_fields none i.id i.tun_name i.xray_port i.fwmark rows)
      ≡ some (i, key)
unfolding update_runtime_fields
lookup-update_runtime_fields i key rows h =
    rw (h, update_runtime_fields, lookup-insert i.id i.id (i, key) rows, beq_refl i.id) refl

merge-draft :
    (n : NewTunnel) (public_key : Text) (id : ℕ)
    → let i = filled id (draft n public_key) in
      merge (record (draft n public_key) { id = id; balancing_strategy = round_robin }) i ≡ i
unfolding merge filled draft
merge-draft n public_key id = elim (Option-cases n.node_id) [
  | inl unset_node ↦ rw (unset_node) refl
  | inr (node, given) ↦ rw (given) refl
]

module _ {K : Type 0} (n : NewTunnel) (o : Outside) (w : World K) where
  complete_row :
      (i old : WgInterface) (enc : Text) (w₀ : World K)
      → o.update_fault ≡ none
      → o.fields_fault ≡ none
      → lookup i.id w₀.rows ≡ some (old, enc)
      → merge old i ≡ i
      → lookup i.id (complete n o i w₀).rows ≡ some (i, enc)
  unfolding complete
  complete_row i old enc w₀ up fields found merged =
      rw (up, fields)
        (lookup-update_runtime_fields i enc (update none i w₀.rows).1
          (lookup-update i old enc w₀.rows found ∙ ap (λ r. some (r, enc)) merged))

  stored :
      (i : WgInterface) (ids : List ℕ) (w' : World K) (public_key enc : Text)
      → o.update_fault ≡ none
      → o.fields_fault ≡ none
      → i ≡ filled o.next_id (draft n public_key)
      → w'
        ≡ complete n o i (record w { rows = create_row o.next_id (draft n public_key) enc w.rows })
      → IsFilled i × (lookup i.id w'.rows ≡ some (i, enc))
  unfolding create_row filled
  stored i ids w' public_key enc up fields is_i is_w =
      let d = draft n public_key in
      let j = filled o.next_id d in
      let w₀ = record w { rows = create_row o.next_id d enc w.rows } in
      let old = record d { id = o.next_id; balancing_strategy = round_robin } in
      rw (is_w, is_i)
        (
          filled-IsFilled n public_key o.next_id,
          complete_row j old enc w₀ up fields
              (rw (lookup-insert o.next_id o.next_id (old, enc) w.rows, beq_refl o.next_id) refl)
              (merge-draft n public_key o.next_id),
        )

  -- A Create that succeeds, and whose two updates meet no fault of the database, leaves the returned
  -- interface in its row, and this has positive sizes, an address, a DNS server and the TUN name, the
  -- port and the mark of its id.
  pub create-IsFilled :
      (i : WgInterface) (ids : List ℕ) (w' : World K)
      → o.update_fault ≡ none
      → o.fields_fault ≡ none
      → create n o w ≡ (ok (i, ids), w')
      → IsFilled i × ((enc : Text) × (lookup i.id w'.rows ≡ some (i, enc)))
  unfolding create
  create-IsFilled i ids w' up fields h = elim (Result-cases o.keypair) [
    | inl (e, failed) ↦ ground arith
    | inr ((priv, public_key), made) ↦ elim (Result-cases (o.encrypt priv)) [
      | inl (e, failed) ↦ ground arith
      | inr (enc, encrypted) ↦ elim (Option-cases o.create_fault) [
        | inr (m, failed) ↦ ground arith
        | inl fine ↦
            let (is_filled, row) =
              stored i ids w' public_key enc up fields (ground arith) (ground arith) in
            (is_filled, (enc, row))
      ]
    ]
  ]
