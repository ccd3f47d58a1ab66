-- ===== src/Base/Sort.antt =====
-- slices.Sort and slices.SortFunc as an insertion that keeps the order of equal items.
use Prim.Native.Nat.{Ordering}
use aspect_gazelle.Base.Lists.{In, here, there, All}
use aspect_gazelle.Base.Tests.{Bool-cases, if◌then◌else◌}
use mathlib.Core.Path.{◌≡◌}
use mathlib.Core.Bool.{Bool, true, false}
use mathlib.Core.List.{List, [], ◌∷◌}
use mathlib.Core.Logic.{inl, inr}

abbrev pub is_after : Ordering → Bool
is_after Ordering.lt = false
is_after Ordering.eq = false
is_after Ordering.gt = true

module _ {A : Type 0} where
  unfoldable pub insert_by : (A → A → Ordering) → A → List A → List A
  insert_by c x [] = x ∷ []
  insert_by c x (y ∷ ys) =
      let rest = insert_by c x ys in if is_after (c x y) then y ∷ rest else x ∷ y ∷ ys

  unfoldable pub sort_by : (A → A → Ordering) → List A → List A
  unfolding insert_by
  sort_by c [] = []
  sort_by c (x ∷ xs) = insert_by c x (sort_by c xs)

  -- No item comes after one that follows it.
  abbrev pub IsSortedBy : (A → A → Ordering) → List A → Type 0
  IsSortedBy c [] = Unit
  IsSortedBy c (x ∷ xs) = All (λ y. is_after (c x y) ≡ false) xs × IsSortedBy c xs

-- An order in which two items can always be compared.
pub record IsPreorder {A : Type 0} (c : A → A → Ordering) : Type 0 where
  pub connected : (x y : A) → is_after (c x y) ≡ true → is_after (c y x) ≡ false
  pub chained :
      (x y z : A) → is_after (c x y) ≡ false → is_after (c y z) ≡ false → is_after (c x z) ≡ false

module _ {A : Type 0} (c : A → A → Ordering) where
  insert_by-In : (x z : A) (ys : List A) → In z (insert_by c x ys) → In z (x ∷ ys)
  unfolding insert_by
  insert_by-In x z [] i = i
  insert_by-In x z (y ∷ ys) i = elim (Bool-cases (is_after (c x y))) [
    | inr f ↦ (rw (insert_by, f) at i)
    | inl t ↦ elim (rw (insert_by, t) at i) [
      | here e ↦ there (here e)
      | there j ↦ elim (insert_by-In x z ys j) [ here e ↦ here e | there k ↦ there (there k) ]
    ]
  ]

  In-insert_by : (x z : A) (ys : List A) → In z (x ∷ ys) → In z (insert_by c x ys)
  unfolding insert_by
  In-insert_by x z [] i = i
  In-insert_by x z (y ∷ ys) i = elim (Bool-cases (is_after (c x y))) [
    | inr f ↦ rw (insert_by, f) i
    | inl t ↦
        rw (insert_by, t)
          (elim i [
            | here e ↦ there (In-insert_by x z ys (here e))
            | there (here e) ↦ here e
            | there (there j) ↦ there (In-insert_by x z ys (there j))
          ])
  ]

  pub sort_by-In : (xs : List A) (z : A) → In z (sort_by c xs) → In z xs
  unfolding sort_by
  sort_by-In [] z i = i
  sort_by-In (x ∷ xs) z i = elim (insert_by-In x z (sort_by c xs) i) [
    | here e ↦ here e
    | there j ↦ there (sort_by-In xs z j)
  ]

  pub In-sort_by : (xs : List A) (z : A) → In z xs → In z (sort_by c xs)
  unfolding sort_by
  In-sort_by [] z i = i
  In-sort_by (x ∷ xs) z (here e) = In-insert_by x z (sort_by c xs) (here e)
  In-sort_by (x ∷ xs) z (there i) = In-insert_by x z (sort_by c xs) (there (In-sort_by xs z i))

module _ {A : Type 0} (c : A → A → Ordering) (order : IsPreorder c) where
  All-insert_by : (P : A → Type 0) (x : A) (ys : List A) → P x → All P ys → All P (insert_by c x ys)
  unfolding insert_by
  All-insert_by P x [] h k = (h, tt)
  All-insert_by P x (y ∷ ys) h k = elim (Bool-cases (is_after (c x y))) [
    | inl t ↦ rw (insert_by, t) (k.0, All-insert_by P x ys h k.1)
    | inr f ↦ rw (insert_by, f) (h, k)
  ]

  All-before :
      (x y : A) (ys : List A)
      → is_after (c x y) ≡ false
      → All (λ z. is_after (c y z) ≡ false) ys
      → All (λ z. is_after (c x z) ≡ false) ys
  All-before x y [] h k = tt
  All-before x y (z ∷ ys) h k = (order.chained x y z h k.0, All-before x y ys h k.1)

  insert_by-IsSortedBy : (x : A) (ys : List A) → IsSortedBy c ys → IsSortedBy c (insert_by c x ys)
  unfolding insert_by
  insert_by-IsSortedBy x [] s = (tt, tt)
  insert_by-IsSortedBy x (y ∷ ys) s = elim (Bool-cases (is_after (c x y))) [
    | inl t ↦
        rw (insert_by, t)
          (
            All-insert_by (λ z. is_after (c y z) ≡ false) x ys (order.connected x y t) s.0,
            insert_by-IsSortedBy x ys s.1,
          )
    | inr f ↦ rw (insert_by, f) ((f, All-before x y ys f s.0), s)
  ]

  pub sort_by-IsSortedBy : (xs : List A) → IsSortedBy c (sort_by c xs)
  unfolding sort_by
  sort_by-IsSortedBy [] = tt
  sort_by-IsSortedBy (x ∷ xs) = insert_by-IsSortedBy x (sort_by c xs) (sort_by-IsSortedBy xs)
