-- ===== src/Base/Assoc.antt =====
-- Go maps as association lists with one entry for a key that is stored.
use mathlib.Core.Path.{◌≡◌, refl}
use mathlib.Core.List.{List, [], ◌∷◌}
use mathlib.Core.Option.{Option, none, some}
use native.Mathlib.Omega.{arith}
use aspect_gazelle.Base.Tests.{if◌then◌else◌}
use aspect_gazelle.Base.Equality.{Eq, ◌==◌, eq_refl}

abbrev pub Assoc {ℓ κ} : Type ℓ → Type κ → Type (ℓ ⊔ κ)
Assoc K V = List (K × V)

module _ {ℓ κ} {K : Type ℓ} {V : Type κ} ⦃e : Eq K⦄ where
  -- m[key]
  unfoldable pub lookup : K → Assoc K V → Option V
  lookup key [] = none
  lookup key ((stored, value) ∷ others) = if stored == key then some value else lookup key others

  -- m[key] = value
  unfoldable pub insert : K → V → Assoc K V → Assoc K V
  insert key value [] = (key, value) ∷ []
  insert key value ((stored, old) ∷ others) =
      if stored == key then (key, value) ∷ others else (stored, old) ∷ insert key value others

  -- delete(m, k)
  unfoldable pub remove : K → Assoc K V → Assoc K V
  remove k [] = []
  remove k ((j, v) ∷ m) = let rest = remove k m in if j == k then rest else (j, v) ∷ rest

module _ {ℓ κ} {K : Type ℓ} {V : Type κ} ⦃e : Eq K⦄ where
  pub lookup-insert :
      (key other : K) (value : V) (entries : Assoc K V)
      → lookup other (insert key value entries)
        ≡ (if key == other then some value else lookup other entries)
  unfolding lookup insert
  lookup-insert key other value [] = refl
  lookup-insert key other value ((stored, old) ∷ rest) = ground (
    arith,
    lookup-insert key other value rest,
    e.beq_iff stored key,
    e.beq_iff stored other,
    e.beq_iff key other,
  )

  pub lookup-remove :
      (k j : K) (m : Assoc K V) → lookup j (remove k m) ≡ (if k == j then none else lookup j m)
  unfolding lookup remove
  lookup-remove k j [] = ground arith
  lookup-remove k j ((i, w) ∷ m) =
      ground (arith, e.beq_iff k j, e.beq_iff i k, e.beq_iff i j, lookup-remove k j m)

  pub lookup-insert_self :
      (key : K) (value : V) (entries : Assoc K V)
      → lookup key (insert key value entries) ≡ some value
  lookup-insert_self key value entries = rw (lookup-insert, eq_refl key)
