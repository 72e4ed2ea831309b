-- ===== src/Base/Assoc.antt =====
-- Go maps as association lists with one entry for a key: `m[k]`, `m[k] = v`, `delete(m, k)`.
use mathlib.Core.Path.{◌≡◌, refl}
use mathlib.Core.Bool.{Bool, true, false}
use mathlib.Core.List.{List, [], ◌∷◌}
use mathlib.Core.Option.{Option, none, some}
use native.Mathlib.Omega.{arith}
use xray2wg.Base.Tests.{Eq, ◌==◌, is_some, if◌then◌else◌}

module _ {ℓ κ} {K : Type ℓ} {V : Type κ} ⦃e : Eq K⦄ where
  unfoldable pub lookup : K → List (K × V) → Option V
  lookup k [] = none
  lookup k ((j, v) ∷ m) = if j == k then some v else lookup k m

  unfoldable pub erase : K → List (K × V) → List (K × V)
  erase k [] = []
  erase k ((j, v) ∷ m) = if j == k then erase k m else (j, v) ∷ erase k m

  unfoldable pub insert : K → V → List (K × V) → List (K × V)
  unfolding erase
  insert k v m = (k, v) ∷ erase k m

  pub lookup-erase :
      (k j : K) (m : List (K × V)) → lookup j (erase k m) ≡ (if k == j then none else lookup j m)
  unfolding lookup erase
  lookup-erase k j [] = ground arith
  lookup-erase k j ((i, w) ∷ m) =
      ground (arith, e.same_iff k j, e.same_iff i k, e.same_iff i j, lookup-erase k j m)

  pub lookup-insert :
      (k i : K) (v : V) (m : List (K × V))
      → lookup i (insert k v m) ≡ (if k == i then some v else lookup i m)
  unfolding lookup insert
  lookup-insert k i v m = ground (arith, lookup-erase k i m)

  pub is_some-lookup-insert :
      (k j : K) (v : V) (m : List (K × V))
      → is_some (lookup j (insert k v m)) ≡ (if k == j then true else is_some (lookup j m))
  is_some-lookup-insert k j v m = ground (arith, lookup-insert k j v m)

  pub is_some-lookup-erase :
      (k j : K) (m : List (K × V))
      → is_some (lookup j (erase k m)) ≡ (if k == j then false else is_some (lookup j m))
  is_some-lookup-erase k j m = ground (arith, lookup-erase k j m)

-- A set of keys, `map[K]struct{}`.
module _ {ℓ} {K : Type ℓ} ⦃e : Eq K⦄ where
  unfoldable pub contains : K → List K → Bool
  contains k [] = false
  contains k (j ∷ s) = if j == k then true else contains k s

  unfoldable pub remove : K → List K → List K
  remove k [] = []
  remove k (j ∷ s) = if j == k then remove k s else j ∷ remove k s

  unfoldable pub add : K → List K → List K
  unfolding remove
  add k s = k ∷ remove k s

  pub contains-remove :
      (k j : K) (s : List K) → contains j (remove k s) ≡ (if k == j then false else contains j s)
  unfolding contains remove
  contains-remove k j [] = ground arith
  contains-remove k j (i ∷ s) =
      ground (arith, e.same_iff k j, e.same_iff i k, e.same_iff i j, contains-remove k j s)

  pub contains-add :
      (k j : K) (s : List K) → contains j (add k s) ≡ (if k == j then true else contains j s)
  unfolding contains add
  contains-add k j s = ground (arith, contains-remove k j s)

abbrev pub only_if {ℓ} : {V : Type ℓ} → (V → Bool) → Option V → Option V
only_if p none = none
only_if p (some v) = if p v then some v else none

module _ {ℓ κ} {K : Type ℓ} {V : Type κ} ⦃e : Eq K⦄ where
  -- No key stands twice, as in every Go map.
  abbrev pub Distinct : List (K × V) → Type κ
  Distinct [] = Unit
  Distinct ((k, v) ∷ m) = (lookup k m ≡ none) × Distinct m

  pub erase-Distinct : (k : K) (m : List (K × V)) → Distinct m → Distinct (erase k m)
  unfolding erase
  erase-Distinct k [] d = tt
  erase-Distinct k ((j, v) ∷ m) d = ground (arith, erase-Distinct k m d.1, lookup-erase k j m)

  pub insert-Distinct : (k : K) (v : V) (m : List (K × V)) → Distinct m → Distinct (insert k v m)
  unfolding insert
  insert-Distinct k v m d = ground (arith, erase-Distinct k m d, lookup-erase k k m, e.same_iff k k)

  -- Deleting, while ranging over a map, the entries whose value fails a test.
  unfoldable pub keep_values : (V → Bool) → List (K × V) → List (K × V)
  keep_values p [] = []
  keep_values p ((k, v) ∷ m) = if p v then (k, v) ∷ keep_values p m else keep_values p m

  pub lookup-keep_values :
      (p : V → Bool) (j : K) (m : List (K × V))
      → Distinct m
      → lookup j (keep_values p m) ≡ only_if p (lookup j m)
  unfolding lookup keep_values
  lookup-keep_values p j [] d = refl
  lookup-keep_values p j ((k, v) ∷ m) d =
      ground (arith, e.same_iff k j, lookup-keep_values p j m d.1)

  pub keep_values-Distinct :
      (p : V → Bool) (m : List (K × V)) → Distinct m → Distinct (keep_values p m)
  unfolding keep_values
  keep_values-Distinct p [] d = tt
  keep_values-Distinct p ((k, v) ∷ m) d =
      ground (arith, keep_values-Distinct p m d.1, lookup-keep_values p k m d.1)
