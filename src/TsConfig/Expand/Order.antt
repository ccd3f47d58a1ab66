-- ===== src/TsConfig/Expand/Order.antt =====
-- ExpandPaths over the entries of one map of paths in two orders.
use aspect_gazelle.Base.{
  ◌≡◌, ◌⊎◌, refl, sym, some-injective, ◌∙◌, ap, ap₂, subst, true, false, Option, none, some, List,
  [], ◌∷◌, nat_eq, list_eq, Str, In, here, there, All-In, Bool-cases, true-false, inl, inr, arith,
}
use aspect_gazelle.Base.Assoc.{Assoc}
use aspect_gazelle.TsConfig.Expand.{
  Match, match_of, add_match, possible_matches, less, insert_match, sort_matches,
}
use aspect_gazelle.TsConfig.Expand.Sorted.{IsSorted, less_asym}

less_irrefl : (x : Match) → less x x ≡ false
unfolding less
less_irrefl x = ground arith

first_same :
    (x y : Match) (xs ys : List Match)
    → IsSorted (x ∷ xs)
    → IsSorted (y ∷ ys)
    → In x (y ∷ ys)
    → In y (x ∷ xs)
    → x ≡ y
first_same x y xs ys s t (here e) j = e
first_same x y xs ys s t (there i) (here e) = sym e
first_same x y xs ys s t (there i) (there j) =
    true-false (All-In (λ w. less x w ≡ true) xs s.0 j)
      (less_asym y x (All-In (λ w. less y w ≡ true) ys t.0 i))

not_first : (x y z : Match) (ys : List Match) → x ≡ y → less x z ≡ true → In z (y ∷ ys) → In z ys
not_first x y z ys same below (here e) =
    true-false (subst (λ (w : Match). less x w ≡ true) (e ∙ sym same) below) (less_irrefl x)
not_first x y z ys same below (there i) = i

-- A sorted list is known by what is in it.
pub IsSorted-unique :
    (xs ys : List Match)
    → IsSorted xs
    → IsSorted ys
    → ((z : Match) → In z xs → In z ys)
    → ((z : Match) → In z ys → In z xs)
    → xs ≡ ys
IsSorted-unique [] [] s t to from = refl
IsSorted-unique [] (y ∷ ys) s t to from = elim (from y (here refl)) [ ]
IsSorted-unique (x ∷ xs) [] s t to from = elim (to x (here refl)) [ ]
IsSorted-unique (x ∷ xs) (y ∷ ys) s t to from =
    let first = first_same x y xs ys s t (to x (here refl)) (from y (here refl)) in
    ap₂ (λ (a : Match) (as' : List Match). a ∷ as') first
      (IsSorted-unique xs ys s.1 t.1
        (λ z i. not_first x y z ys first (All-In (λ w. less x w ≡ true) xs s.0 i) (to z (there i)))
        (λ z i.
          not_first y x z xs (sym first) (All-In (λ w. less y w ≡ true) ys t.0 i)
            (from z (there i))))

In-add_match-some :
    (m : Option Match) (ms : List Match) (z : Match) → m ≡ some z → In z (add_match m ms)
In-add_match-some none ms z e = cc
In-add_match-some (some x) ms z e = here (sym (some-injective _ _ e))

In-add_match-later :
    (m : Option Match) (ms : List Match) (z : Match) → In z ms → In z (add_match m ms)
In-add_match-later none ms z i = i
In-add_match-later (some x) ms z i = there i

pub In-possible_matches :
    (p key : Str) (o : List Str) (entries : Assoc Str (List Str)) (z : Match)
    → In (key, o) entries
    → match_of p key o ≡ some z
    → In z (possible_matches p entries)
unfolding possible_matches
In-possible_matches p key o [] z i e = elim i [ ]
In-possible_matches p key o ((l, o') ∷ entries) z (here same) e =
    In-add_match-some (match_of p l o') (possible_matches p entries) z
      (ap (λ (entry : Str × List Str). match_of p entry.0 entry.1) (sym same) ∙ e)
In-possible_matches p key o ((l, o') ∷ entries) z (there i) e =
    In-add_match-later (match_of p l o') (possible_matches p entries) z
      (In-possible_matches p key o entries z i e)

add_match-In :
    (m : Option Match) (ms : List Match) (z : Match)
    → In z (add_match m ms)
    → (m ≡ some z) ⊎ In z ms
add_match-In none ms z i = inr i
add_match-In (some x) ms z (here e) = inl (ap some (sym e))
add_match-In (some x) ms z (there i) = inr i

-- The entry that a match comes from.
pub record Source (p : Str) (entries : Assoc Str (List Str)) (z : Match) : Type 0 where
  pub key : Str
  pub originals : List Str
  pub entry : In (key, originals) entries
  pub made : match_of p key originals ≡ some z

pub possible_matches-Source :
    (p : Str) (entries : Assoc Str (List Str)) (z : Match)
    → In z (possible_matches p entries)
    → Source p entries z
unfolding possible_matches
possible_matches-Source p [] z i = elim i [ ]
possible_matches-Source p ((l, o) ∷ entries) z i =
    elim (add_match-In (match_of p l o) (possible_matches p entries) z i) [
      | inl made ↦ record { key = l; originals = o; entry = here refl; made = made }
      | inr later ↦
          let r = possible_matches-Source p entries z later in
          record { key = r.key; originals = r.originals; entry = there r.entry; made = r.made }
    ]

insert_match-In :
    (m : Match) (ns : List Match) (z : Match) → In z (insert_match m ns) → In z (m ∷ ns)
unfolding insert_match
insert_match-In m [] z i = i
insert_match-In m (n ∷ ns) z i = elim (Bool-cases (less n m)) [
  | inl t ↦ elim (rw (insert_match, t) at i) [
    | here e ↦ there (here e)
    | there j ↦ elim (insert_match-In m ns z j) [ here e ↦ here e | there k ↦ there (there k) ]
  ]
  | inr f ↦ (rw (insert_match, f) at i)
]

In-insert_match :
    (m : Match) (ns : List Match) (z : Match) → In z (m ∷ ns) → In z (insert_match m ns)
unfolding insert_match
In-insert_match m [] z i = i
In-insert_match m (n ∷ ns) z i = elim (Bool-cases (less n m)) [
  | inl t ↦
      rw (insert_match, t)
        (elim i [
          | here e ↦ there (In-insert_match m ns z (here e))
          | there (here e) ↦ here e
          | there (there j) ↦ there (In-insert_match m ns z (there j))
        ])
  | inr f ↦ rw (insert_match, f) i
]

pub sort_matches-In : (ms : List Match) (z : Match) → In z (sort_matches ms) → In z ms
unfolding sort_matches
sort_matches-In [] z i = i
sort_matches-In (m ∷ ms) z i = elim (insert_match-In m (sort_matches ms) z i) [
  | here e ↦ here e
  | there j ↦ there (sort_matches-In ms z j)
]

pub In-sort_matches : (ms : List Match) (z : Match) → In z ms → In z (sort_matches ms)
unfolding sort_matches
In-sort_matches [] z i = i
In-sort_matches (m ∷ ms) z (here e) = In-insert_match m (sort_matches ms) z (here e)
In-sort_matches (m ∷ ms) z (there i) =
    In-insert_match m (sort_matches ms) z (there (In-sort_matches ms z i))
