-- ===== src/Tunnel/Repo.antt =====
-- backend/internal/infrastructure/db/tunnel_repo.go on the table wg_interfaces: rows with their
-- encrypted private keys, by id. A fault is an error of the database itself.
use xray2wg.Base.{
  ℕ, Option, none, some, List, [], ◌∷◌, Text, lookup, insert, nat_eq, ◌≡◌, refl, arith,
  lookup-insert, beq_refl, Option-cases, ap, sym,
}
use xray2wg.Domain.{WgInterface, WgStatus}
use xray2wg.Domain.Errors.{GoError, sentinel, Sentinel, plain, Result, ok, err}

abbrev pub Rows : Type 0
Rows = List (ℕ × (WgInterface × Text))

unfoldable pub get_by_id : Option Text → ℕ → Rows → Result (WgInterface × Text)
get_by_id (some m) id rows = err (plain m)
get_by_id none id rows = elim (lookup id rows) [
  | none ↦ err (sentinel Sentinel.not_found)
  | some r ↦ ok r
]

abbrev pub or_else : Option ℕ → Option ℕ → Option ℕ
or_else none old = old
or_else (some n) old = some n

-- The columns that Update writes; the active node is left alone where the new one is nil.
unfoldable pub merge : WgInterface → WgInterface → WgInterface
merge old new = record new {
  id = old.id;
  public_key = old.public_key;
  active_node_id = or_else new.active_node_id old.active_node_id;
}

unfoldable pub update : Option Text → WgInterface → Rows → Option GoError × Rows
unfolding merge
update (some m) iface rows = (some (plain m), rows)
update none iface rows = elim (lookup iface.id rows) [
  | none ↦ (some (sentinel Sentinel.not_found), rows)
  | some (old, key) ↦ (none, insert iface.id (merge old iface, key) rows)
]

-- The error of UpdateStatus is only logged by the tunnel service.
pub update_status : Option Text → ℕ → WgStatus → Text → Rows → Rows
update_status (some m) id st msg rows = rows
update_status none id st msg rows = elim (lookup id rows) [
  | none ↦ rows
  | some (old, key) ↦ insert id (record old { status = st; error_message = msg }, key) rows
]

ids_running : Rows → List ℕ
ids_running [] = []
ids_running ((id, (i, key)) ∷ rows) =
    let rest = ids_running rows in elim i.status [ WgStatus.running ↦ id ∷ rest | _ ↦ rest ]

pub list_running_ids : Option Text → Rows → Result (List ℕ)
unfolding ids_running
list_running_ids (some m) rows = err (plain m)
list_running_ids none rows = ok (ids_running rows)

-- ClearActiveNodeID, which says nothing of a missing row.
unfoldable pub clear_active_node_id : Option Text → ℕ → Rows → Option GoError × Rows
clear_active_node_id (some m) id rows = (some (plain m), rows)
clear_active_node_id none id rows = elim (lookup id rows) [
  | none ↦ (none, rows)
  | some (old, key) ↦ (none, insert id (record old { active_node_id = none }, key) rows)
]

pub get_by_id-ok :
    (fault : Option Text) (id : ℕ) (rows : Rows) (r : WgInterface × Text)
    → get_by_id fault id rows ≡ ok r
    → lookup id rows ≡ some r
unfolding get_by_id
get_by_id-ok none id rows r h = ground (arith, Option-cases (lookup id rows))
get_by_id-ok (some m) id rows r h = ground arith

pub lookup-update :
    (iface old : WgInterface) (key : Text) (rows : Rows)
    → lookup iface.id rows ≡ some (old, key)
    → lookup iface.id (update none iface rows).1 ≡ some (merge old iface, key)
unfolding update
lookup-update iface old key rows h =
    rw (h, update, lookup-insert iface.id iface.id (merge old iface, key) rows, beq_refl iface.id)
      refl

pub lookup-clear_active_node_id :
    (id : ℕ) (old : WgInterface) (key : Text) (rows : Rows)
    → lookup id rows ≡ some (old, key)
    → lookup id (clear_active_node_id none id rows).1
      ≡ some (record old { active_node_id = none }, key)
unfolding clear_active_node_id
lookup-clear_active_node_id id old key rows h =
    rw
      (
        h,
        clear_active_node_id,
        lookup-insert id id (record old { active_node_id = none }, key) rows,
        beq_refl id,
      )
      refl

pub clear_active_node_id-ok :
    (fault : Option Text) (id : ℕ) (rows : Rows)
    → (clear_active_node_id fault id rows).0 ≡ none
    → fault ≡ none
unfolding clear_active_node_id
clear_active_node_id-ok none id rows h = refl
clear_active_node_id-ok (some m) id rows h = ground arith

pub update-ok :
    (fault : Option Text) (iface mid : WgInterface) (id : ℕ) (key : Text) (rows rows' : Rows)
    → iface.id ≡ id
    → lookup id rows ≡ some (mid, key)
    → update fault iface rows ≡ (none, rows')
    → lookup id rows' ≡ some (merge mid iface, key)
unfolding update
update-ok none iface mid id key rows rows' e found h =
    let found' : lookup iface.id rows ≡ some (mid, key) = rw (e) found in
    let stored : (update none iface rows).1 ≡ rows' = ap (λ r. r.1) h in
    rw (sym stored, sym e) (lookup-update iface mid key rows found')
update-ok (some m) iface mid id key rows rows' e found h = ground arith
