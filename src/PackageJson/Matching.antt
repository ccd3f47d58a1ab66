-- ===== src/PackageJson/Matching.antt =====
-- The order of the patterns of package.json, and when one matches.
use Prim.Native.Nat.{Ordering, compare}
use aspect_gazelle.Base.{
  ℕ, ◌+◌, ◌-◌, ◌<◌, ◌≤◌, ◌≡◌, ◌≢◌, refl, sym, ◌∙◌, ap, true, false, List, [], ◌∷◌, ◌++◌, ◌||◌, not,
  nat_eq, list_eq, Str, has_prefix, has_suffix, has_prefix-append, has_suffix-append, length,
  length-append, take, append_assoc, leb, or-eq_false, has_suffix-split, zero, suc, arith,
  take-append-drop, length-take, length-drop,
}
use aspect_gazelle.Base.Sort.{IsPreorder}
use aspect_gazelle.Labels.{compare_text}
use aspect_gazelle.Labels.Ordered.{
  IsTotalOrder, compare_text-IsTotalOrder, compare_pairs, compare_pairs-IsTotalOrder,
}
use aspect_gazelle.TsConfig.Expand.Matches.{prefix-take}
use aspect_gazelle.PackageJson.{SubpathPattern, is_other_pattern, matched_part, compare_patterns}

IsTotalOrder-IsPreorder :
    {A K : Type 0} (key : A → K) (c : K → K → Ordering)
    → IsTotalOrder c
    → IsPreorder (λ (x y : A). c (key x) (key y))
IsTotalOrder-IsPreorder key c order = record {
  connected = λ x y h. ground (arith, order.swapped (key x) (key y));
  chained = λ x y z h k. ground (
    arith,
    order.transitive (key x) (key y) (key z),
    order.same (key x) (key y),
    order.same (key y) (key z),
  );
}

abbrev longer_first : ℕ → ℕ → Ordering
longer_first a b = compare b a

longer_first-IsTotalOrder : IsTotalOrder longer_first
longer_first-IsTotalOrder = record {
  same = λ a b h. ground arith;
  itself = λ a. ground arith;
  swapped = λ a b. ground arith;
  transitive = λ a b d h k. ground arith;
}

abbrev Key : Type 0
Key = ℕ × (ℕ × (Str × Str))

abbrev key : SubpathPattern → Key
key p = (length p.prefix, (length p.suffix, (p.prefix, p.suffix)))

pub compare_patterns-IsPreorder : IsPreorder compare_patterns
unfolding compare_patterns
compare_patterns-IsPreorder =
    IsTotalOrder-IsPreorder key
      (compare_pairs longer_first
        (compare_pairs longer_first (compare_pairs compare_text compare_text)))
      (compare_pairs-IsTotalOrder longer_first
        (compare_pairs longer_first (compare_pairs compare_text compare_text))
        longer_first-IsTotalOrder
        (compare_pairs-IsTotalOrder longer_first (compare_pairs compare_text compare_text)
          longer_first-IsTotalOrder
          (compare_pairs-IsTotalOrder compare_text compare_text compare_text-IsTotalOrder
            compare_text-IsTotalOrder)))

-- A pattern matches where a text of its own stands for the star.
pub record IsMatch (specifier before after : Str) (middle : Str) : Type 0 where
  pub splits : specifier ≡ before ++ middle ++ after
  pub nonempty : middle ≢ []

length-nonempty : (s : Str) → s ≢ [] → 0 < length s
length-nonempty [] h = absurd (h refl)
length-nonempty (c ∷ s) h = omega arith

pub is_other_pattern-IsMatch :
    (specifier middle : Str) (p : SubpathPattern)
    → IsMatch specifier p.prefix p.suffix middle
    → is_other_pattern specifier p ≡ false
unfolding is_other_pattern
is_other_pattern-IsMatch specifier middle p m =
    let starts : has_prefix specifier p.prefix ≡ true =
      rw (m.splits ∙ append_assoc p.prefix middle p.suffix)
        (has_prefix-append p.prefix (middle ++ p.suffix)) in
    let ends : has_suffix specifier p.suffix ≡ true =
      rw m.splits (has_suffix-append (p.prefix ++ middle) p.suffix) in
    let longer : length p.prefix + length p.suffix < length specifier = omega (
      arith,
      ap length m.splits,
      length-append (p.prefix ++ middle) p.suffix,
      length-append p.prefix middle,
      length-nonempty middle m.nonempty,
    ) in
    ground (arith, starts, ends, longer)

take-take : {A : Type 0} (m n : ℕ) (xs : List A) → m ≤ n → take m (take n xs) ≡ take m xs
take-take zero n xs h = refl
take-take (suc m) zero xs h = absurd (omega (arith, h))
take-take (suc m) (suc n) [] h = refl
take-take (suc m) (suc n) (x ∷ xs) h = ap (◌∷◌ x) (take-take m n xs (omega (arith, h)))

pub IsMatch-is_other_pattern :
    (specifier : Str) (p : SubpathPattern)
    → is_other_pattern specifier p ≡ false
    → IsMatch specifier p.prefix p.suffix (matched_part specifier p)
unfolding is_other_pattern
IsMatch-is_other_pattern specifier p h =
    let n = length specifier - length p.suffix in
    let short = leb (length specifier) (length p.prefix + length p.suffix) in
    let (rest, other_end) = or-eq_false (short || not (has_prefix specifier p.prefix)) _ h in
    let (fits, other_start) = or-eq_false short _ rest in
    let starts : has_prefix specifier p.prefix ≡ true = ground (arith, other_start) in
    let ends : has_suffix specifier p.suffix ≡ true = ground (arith, other_end) in
    let longer : length p.prefix + length p.suffix < length specifier = ground (arith, fits) in
    let prefix : take (length p.prefix) (take n specifier) ≡ p.prefix =
      take-take (length p.prefix) n specifier (omega (arith, longer))
      ∙ sym (prefix-take specifier p.prefix starts) in
    let front : p.prefix ++ matched_part specifier p ≡ take n specifier =
      ap (λ (t : Str). t ++ matched_part specifier p) (sym prefix)
      ∙ take-append-drop (length p.prefix) (take n specifier) in
    record {
      splits =
          has_suffix-split specifier p.suffix ends ∙ ap (λ (t : Str). t ++ p.suffix) (sym front);
      nonempty = λ e. absurd (
          omega (
            arith,
            longer,
            ap length e,
            length-drop (length p.prefix) (take n specifier),
            length-take n specifier,
          ));
    }
