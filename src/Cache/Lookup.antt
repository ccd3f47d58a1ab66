-- ===== src/Cache/Lookup.antt =====
-- What is under a path and a key of the entries after each change of them.
use aspect_gazelle.Base.{
  String, ◌≡◌, refl, none, some, List, [], ◌∷◌, ◌==◌, string_eq, if◌then◌else◌, arith, Bool-cases,
  any, Option-cases, inl, inr,
}
use text.Mathlib.TextEquality.{eq_iff}
use aspect_gazelle.Base.Assoc.{Assoc, lookup, insert, remove, lookup-insert, lookup-remove}
use aspect_gazelle.Cache.{Entries, load, row_of, invalidate}
use aspect_gazelle.Cache.Watch.{remove_all}

pub lookup_nil : {V : Type 0} (k : String) → lookup {V = V} k [] ≡ none
unfolding lookup
lookup_nil k = refl

pub load_nil : {V : Type 0} (q key : String) → load {V = V} q key [] ≡ none
unfolding load lookup
load_nil q key = refl

module _ {V : Type 0} where
  pub load-insert :
      (p q key : String) (row : Assoc String V) (entries : Entries V)
      → load q key (insert p row entries) ≡ (if p == q then lookup key row else load q key entries)
  unfolding load
  load-insert p q key row entries = elim (Bool-cases (p == q)) [
    | inl e ↦ rw (load, lookup-insert, e)
    | inr n ↦ rw (load, lookup-insert, n)
  ]

  pub load-row_of :
      (p q key : String) (entries : Entries V)
      → load q key (insert p (row_of p entries) entries) ≡ load q key entries
  unfolding row_of load
  load-row_of p q key entries = elim (Bool-cases (p == q)) [
    | inr n ↦ rw (load-insert, n)
    | inl e ↦ elim (Option-cases (lookup q entries)) [
      | inl missing ↦ rw (load-insert, e, (eq_iff p q).0 e, row_of, missing, load) (lookup_nil key)
      | inr (row, found) ↦ rw (load-insert, e, (eq_iff p q).0 e, row_of, found, load)
    ]
  ]

  pub lookup-row_of :
      (p key : String) (entries : Entries V) → lookup key (row_of p entries) ≡ load p key entries
  unfolding row_of load
  lookup-row_of p key entries = elim (Option-cases (lookup p entries)) [
    | inl missing ↦ rw (row_of, missing, load) (lookup_nil key)
    | inr (row, found) ↦ rw (row_of, found, load)
  ]

  pub load-store :
      (p q key k : String) (v : V) (entries : Entries V)
      → load q k (insert p (insert key v (row_of p entries)) entries)
        ≡ (if p == q then (if key == k then some v else load q k entries) else load q k entries)
  load-store p q key k v entries = elim (Bool-cases (p == q)) [
    | inr n ↦ rw (load-insert, n)
    | inl e ↦ rw (load-insert, e, lookup-insert, lookup-row_of, (eq_iff p q).0 e) refl
  ]

  pub load-remove :
      (p q key : String) (entries : Entries V)
      → load q key (remove p entries) ≡ (if p == q then none else load q key entries)
  unfolding load
  load-remove p q key entries = elim (Bool-cases (p == q)) [
    | inl e ↦ rw (load, lookup-remove, e)
    | inr n ↦ rw (load, lookup-remove, n)
  ]

  pub lookup-remove_all :
      (q : String) (ps : List String) (m : Assoc String V)
      → lookup q (remove_all ps m) ≡ (if any (λ p. p == q) ps then none else lookup q m)
  unfolding remove_all
  lookup-remove_all q [] m = refl
  lookup-remove_all q (p ∷ ps) m =
      ground (arith, lookup-remove_all q ps (remove p m), lookup-remove p q m)

  pub load-invalidate :
      (q key : String) (ps : List String) (entries : Entries V)
      → load q key (invalidate ps entries)
        ≡ (if any (λ p. p == q) ps then none else load q key entries)
  unfolding invalidate
  load-invalidate q key [] entries = refl
  load-invalidate q key (p ∷ ps) entries =
      ground (arith, load-invalidate q key ps (remove p entries), load-remove p q key entries)
