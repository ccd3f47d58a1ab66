-- ===== src/Labels/Ordered.antt =====
-- The laws that a set ordered by LabelComparator relies on.
use Prim.Native.Nat.{Ordering}
use aspect_gazelle.Base.{◌≡◌, refl, sym, ◌∙◌, ap, ap₂, Bool, [], ◌∷◌, Str, arith}
use aspect_gazelle.Labels.{Label, compare_text, or_compare, compare_relative, label_comparator}

abbrev pub opposite : Ordering → Ordering
opposite Ordering.lt = Ordering.gt
opposite Ordering.eq = Ordering.eq
opposite Ordering.gt = Ordering.lt

-- A total order, told by comparison.
pub record IsTotalOrder {A : Type 0} (c : A → A → Ordering) : Type 0 where
  pub same : (a b : A) → c a b ≡ Ordering.eq → a ≡ b
  pub itself : (a : A) → c a a ≡ Ordering.eq
  pub swapped : (a b : A) → c b a ≡ opposite (c a b)
  pub transitive : (a b d : A) → c a b ≡ Ordering.lt → c b d ≡ Ordering.lt → c a d ≡ Ordering.lt

same_text : (s t : Str) → compare_text s t ≡ Ordering.eq → s ≡ t
unfolding compare_text
same_text [] [] h = refl
same_text [] (y ∷ t) h = absurd cc
same_text (x ∷ s) [] h = absurd cc
same_text (x ∷ s) (y ∷ t) h = ground (arith, same_text s t)

text_itself : (s : Str) → compare_text s s ≡ Ordering.eq
unfolding compare_text
text_itself [] = refl
text_itself (x ∷ s) = ground (arith, text_itself s)

text_swapped : (s t : Str) → compare_text t s ≡ opposite (compare_text s t)
unfolding compare_text
text_swapped [] [] = refl
text_swapped [] (y ∷ t) = refl
text_swapped (x ∷ s) [] = refl
text_swapped (x ∷ s) (y ∷ t) = ground (arith, text_swapped s t)

text_transitive :
    (s t u : Str)
    → compare_text s t ≡ Ordering.lt
    → compare_text t u ≡ Ordering.lt
    → compare_text s u ≡ Ordering.lt
unfolding compare_text
text_transitive [] [] u h k = absurd cc
text_transitive [] (y ∷ t) [] h k = absurd cc
text_transitive [] (y ∷ t) (z ∷ u) h k = refl
text_transitive (x ∷ s) [] u h k = absurd cc
text_transitive (x ∷ s) (y ∷ t) [] h k = absurd cc
text_transitive (x ∷ s) (y ∷ t) (z ∷ u) h k = ground (arith, text_transitive s t u)

pub compare_text-IsTotalOrder : IsTotalOrder compare_text
compare_text-IsTotalOrder = record {
  same = same_text;
  itself = text_itself;
  swapped = text_swapped;
  transitive = text_transitive;
}

compare_relative-IsTotalOrder : IsTotalOrder compare_relative
compare_relative-IsTotalOrder = record {
  same = λ a b h. ground arith;
  itself = λ a. ground arith;
  swapped = λ a b. ground arith;
  transitive = λ a b d h k. ground arith;
}

abbrev pub compare_pairs :
    {A B : Type 0} → (A → A → Ordering) → (B → B → Ordering) → A × B → A × B → Ordering
compare_pairs c d (a, b) (a', b') = or_compare (c a a') (d b b')

-- One comparison and then another is a total order of pairs.
module _ {A B : Type 0} (c : A → A → Ordering) (d : B → B → Ordering) (first : IsTotalOrder c)
    (second : IsTotalOrder d) where
  pair_transitive :
      (a a' a'' : A) (b b' b'' : B)
      → or_compare (c a a') (d b b') ≡ Ordering.lt
      → or_compare (c a' a'') (d b' b'') ≡ Ordering.lt
      → or_compare (c a a'') (d b b'') ≡ Ordering.lt
  pair_transitive a a' a'' b b' b'' h k = ground (
    arith,
    first.transitive a a' a'',
    first.same a a',
    first.same a' a'',
    second.transitive b b' b'',
  )

  pair_same :
      (a a' : A) (b b' : B) → or_compare (c a a') (d b b') ≡ Ordering.eq → (a ≡ a') × (b ≡ b')
  pair_same a a' b b' h = ground (arith, first.same a a', second.same b b')

  pub compare_pairs-IsTotalOrder : IsTotalOrder (compare_pairs c d)
  compare_pairs-IsTotalOrder = record {
    same = λ p q h. let e = pair_same p.0 q.0 p.1 q.1 h in ap₂ (λ (a : A) (b : B). (a, b)) e.0 e.1;
    itself = λ p. ground (arith, first.itself p.0, second.itself p.1);
    swapped = λ p q. ground (arith, first.swapped p.0 q.0, second.swapped p.1 q.1);
    transitive = λ p q r h k. pair_transitive p.0 q.0 r.0 p.1 q.1 r.1 h k;
  }

-- The fields that are compared.
abbrev pub Key : Type 0
Key = Bool × (Str × (Str × Str))

abbrev pub key : Label → Key
key l = (l.relative, (l.repo, (l.pkg, l.name)))

abbrev compare_keys : Key → Key → Ordering
compare_keys =
    compare_pairs compare_relative
      (compare_pairs compare_text (compare_pairs compare_text compare_text))

compare_keys-IsTotalOrder : IsTotalOrder compare_keys
compare_keys-IsTotalOrder =
    let texts =
      compare_pairs-IsTotalOrder compare_text compare_text compare_text-IsTotalOrder
        compare_text-IsTotalOrder in
    compare_pairs-IsTotalOrder compare_relative
      (compare_pairs compare_text (compare_pairs compare_text compare_text))
      compare_relative-IsTotalOrder
      (compare_pairs-IsTotalOrder compare_text (compare_pairs compare_text compare_text)
        compare_text-IsTotalOrder texts)

-- A total order of what a function gives.
pub record IsOrderBy {A K : Type 0} (k : A → K) (c : A → A → Ordering) : Type 0 where
  pub same : (a b : A) → c a b ≡ Ordering.eq → k a ≡ k b
  pub equal : (a b : A) → k a ≡ k b → c a b ≡ Ordering.eq
  pub swapped : (a b : A) → c b a ≡ opposite (c a b)
  pub transitive : (a b d : A) → c a b ≡ Ordering.lt → c b d ≡ Ordering.lt → c a d ≡ Ordering.lt

-- LabelComparator orders labels totally by whether they are relative, their repository, package and
-- name: two labels compare as equal exactly if they have these in common, whether or not either is
-- canonical, the other order of two labels has the opposite result, and less than is transitive.
pub label_comparator-IsOrderBy : IsOrderBy key label_comparator
unfolding label_comparator
label_comparator-IsOrderBy = record {
  same = λ a b h. compare_keys-IsTotalOrder.same (key a) (key b) h;
  equal = λ a b h. ap (compare_keys (key a)) (sym h) ∙ compare_keys-IsTotalOrder.itself (key a);
  swapped = λ a b. compare_keys-IsTotalOrder.swapped (key a) (key b);
  transitive = λ a b d h k. compare_keys-IsTotalOrder.transitive (key a) (key b) (key d) h k;
}
