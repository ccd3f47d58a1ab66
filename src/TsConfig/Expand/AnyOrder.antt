-- ===== src/TsConfig/Expand/AnyOrder.antt =====
-- What ExpandPaths returns for a map of paths, whatever the order in which its entries are read.
use aspect_gazelle.Base.{
  ◌≡◌, refl, sym, ◌∙◌, ap, ap₂, Option, none, some, some-injective, List, [], ◌∷◌, ◌==◌, nat_eq,
  list_eq, list_beq_iff, Str, In, here, there, Option-cases, Bool-cases, inl, inr, arith,
}
use aspect_gazelle.Base.Assoc.{Assoc, lookup}
use aspect_gazelle.TsConfig.{TsConfig, list_or_nil}
use aspect_gazelle.TsConfig.Expand.{
  Match, possible_matches, sort_matches, expand_paths, expand_paths_match, expand_originals,
  expand_matches, prepend, mapped, matched_text, after_all, exact_paths, other_paths,
}
use aspect_gazelle.TsConfig.Expand.Sorted.{
  IsKeyedOnce, possible_matches-AllApart, sort_matches-IsSorted,
}
use aspect_gazelle.TsConfig.Expand.Order.{
  IsSorted-unique, In-possible_matches, possible_matches-Source, sort_matches-In, In-sort_matches,
}

-- Every entry of the one is in the other.
abbrev pub Within : Assoc Str (List Str) → Assoc Str (List Str) → Type 0
Within m m' = (key : Str) (originals : List Str) → In (key, originals) m → In (key, originals) m'

pub In-lookup :
    (key : Str) (o : List Str) (m : Assoc Str (List Str)) → lookup key m ≡ some o → In (key, o) m
unfolding lookup
In-lookup key o [] h = cc
In-lookup key o ((k, v) ∷ m) h = elim (Bool-cases (k == key)) [
  | inl t ↦ here (
      ap₂ (λ (a : Str) (b : List Str). (a, b)) (sym ((list_beq_iff k key).0 t))
        (sym (some-injective _ _ (rw (lookup, t) at h))))
  | inr f ↦ there (In-lookup key o m (rw (lookup, f) at h))
]

lookup-In :
    (key : Str) (o : List Str) (m : Assoc Str (List Str))
    → IsKeyedOnce m
    → In (key, o) m
    → lookup key m ≡ some o
unfolding lookup
lookup-In key o [] once i = elim i [ ]
lookup-In key o ((k, v) ∷ m) once (here e) = ground (arith, list_beq_iff k key, e)
lookup-In key o ((k, v) ∷ m) once (there i) =
    ground (arith, list_beq_iff k key, once.0 key o i, lookup-In key o m once.1 i)

lookup_same :
    (key : Str) (m m' : Assoc Str (List Str))
    → IsKeyedOnce m
    → IsKeyedOnce m'
    → Within m m'
    → Within m' m
    → lookup key m ≡ lookup key m'
lookup_same key m m' once once' to from = elim (Option-cases (lookup key m)) [
  | inr (o, found) ↦ found ∙ sym (lookup-In key o m' once' (to key o (In-lookup key o m found)))
  | inl n ↦ elim (Option-cases (lookup key m')) [
    | inl n' ↦ n ∙ sym n'
    | inr (o, found) ↦ cc (lookup-In key o m once (from key o (In-lookup key o m' found)))
  ]
]

possible_matches-Within :
    (p : Str) (m m' : Assoc Str (List Str)) (z : Match)
    → Within m m'
    → In z (sort_matches (possible_matches p m))
    → In z (sort_matches (possible_matches p m'))
possible_matches-Within p m m' z to i =
    let source = possible_matches-Source p m z (sort_matches-In (possible_matches p m) z i) in
    In-sort_matches (possible_matches p m') z (
      In-possible_matches p source.key source.originals m' z
        (to source.key source.originals source.entry) source.made)

sort_matches_same :
    (p : Str) (m m' : Assoc Str (List Str))
    → IsKeyedOnce m
    → IsKeyedOnce m'
    → Within m m'
    → Within m' m
    → sort_matches (possible_matches p m) ≡ sort_matches (possible_matches p m')
sort_matches_same p m m' once once' to from =
    IsSorted-unique (sort_matches (possible_matches p m)) (sort_matches (possible_matches p m'))
      (sort_matches-IsSorted (possible_matches p m) (possible_matches-AllApart p m once))
      (sort_matches-IsSorted (possible_matches p m') (possible_matches-AllApart p m' once'))
      (λ z i. possible_matches-Within p m m' z to i)
      (λ z i. possible_matches-Within p m' m z from i)

abbrev pub with_paths : TsConfig → Assoc Str (List Str) → TsConfig
with_paths c m = record c { paths = record c.paths { map = m } }

-- The map itself is not looked at once there are matches.
module _ (c : TsConfig) (p : Str) (m m' : Assoc Str (List Str)) where
  exact_paths-with_paths :
      (ms : List Str) → exact_paths (with_paths c m) ms ≡ exact_paths (with_paths c m') ms
  unfolding expand_paths_match
  exact_paths-with_paths [] = refl
  exact_paths-with_paths (o ∷ ms) =
      ap (◌∷◌ (expand_paths_match (with_paths c m) o)) (exact_paths-with_paths ms)

  mapped_same :
      (o : Str) (text : Option Str)
      → mapped (with_paths c m) o text ≡ mapped (with_paths c m') o text
  unfolding expand_paths_match
  mapped_same o none = refl
  mapped_same o (some text) = refl

  expand_originals-with_paths :
      (x : Match) (os : List Str) (rest : Option (List Str))
      → expand_originals (with_paths c m) p x os rest
        ≡ expand_originals (with_paths c m') p x os rest
  unfolding expand_originals expand_paths_match
  expand_originals-with_paths x [] rest = refl
  expand_originals-with_paths x (o ∷ os) rest =
      ap (prepend (mapped (with_paths c m) o (matched_text p x)))
        (expand_originals-with_paths x os rest)
      ∙ ap (λ (first : Option Str). prepend first (expand_originals (with_paths c m') p x os rest))
          (mapped_same o (matched_text p x))

  expand_matches-with_paths :
      (xs : List Match) (rest : Option (List Str))
      → expand_matches (with_paths c m) p xs rest ≡ expand_matches (with_paths c m') p xs rest
  unfolding expand_matches
  expand_matches-with_paths [] rest = refl
  expand_matches-with_paths (x ∷ xs) rest =
      expand_originals-with_paths x x.original_paths (expand_matches (with_paths c m) p xs rest)
      ∙ ap (expand_originals (with_paths c m') p x x.original_paths)
          (expand_matches-with_paths xs rest)

-- The paths that an import may mean, and their order, do not depend on the order in which the entries
-- of the map of paths are read: two orders of the entries of a map give the same.
pub expand_paths-any_order :
    (c : TsConfig) (p : Str) (m m' : Assoc Str (List Str))
    → IsKeyedOnce m
    → IsKeyedOnce m'
    → Within m m'
    → Within m' m
    → expand_paths (with_paths c m) p ≡ expand_paths (with_paths c m') p
unfolding expand_paths
expand_paths-any_order c p m m' once once' to from =
    ap₂ after_all
      (exact_paths-with_paths c p m m' (list_or_nil (lookup p m))
        ∙ ap (λ (o : Option (List Str)). exact_paths (with_paths c m') (list_or_nil o))
            (lookup_same p m m' once once' to from))
      (expand_matches-with_paths c p m m' (sort_matches (possible_matches p m))
          (some (other_paths c p))
        ∙ ap (λ (xs : List Match). expand_matches (with_paths c m') p xs (some (other_paths c p)))
            (sort_matches_same p m m' once once' to from))
