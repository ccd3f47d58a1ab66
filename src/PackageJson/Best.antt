-- ===== src/PackageJson/Best.antt =====
-- The pattern by which a subpath is resolved.
use aspect_gazelle.Base.{
  ◌<◌, ◌≤◌, ◌≡◌, ◌⊎◌, refl, sym, ◌∙◌, ap, ap₂, subst, false, Option, none, some, List, [], ◌∷◌,
  ◌++◌, nat_eq, list_eq, Str, In, here, there, All-In, cut, contains_byte, length, Bool-cases,
  true-false, inl, inr, arith,
}
use aspect_gazelle.Base.Assoc.{Assoc, lookup}
use aspect_gazelle.Base.Sort.{
  is_after, sort_by, IsSortedBy, sort_by-In, In-sort_by, sort_by-IsSortedBy,
}
use aspect_gazelle.Node.Laws.{cut-some, cut-append}
use aspect_gazelle.PackageJson.{
  star, SubpathPattern, is_other_pattern, matched_part, substituted, resolve_pattern,
  resolve_subpath, found_or, compare_patterns, sorted_targets, put_pattern, pattern_subpaths,
  index_subpaths,
}
use aspect_gazelle.PackageJson.Matching.{
  IsMatch, IsMatch-is_other_pattern, is_other_pattern-IsMatch, compare_patterns-IsPreorder,
}

abbrev pattern_of : Str → Str → List Str → SubpathPattern
pattern_of before after targets = record {
  prefix = before;
  suffix = after;
  targets = sorted_targets targets;
}

In-put_pattern :
    (ts : List Str) (parts : Option (Str × Str)) (patterns : List SubpathPattern)
    (p : SubpathPattern)
    → In p patterns
    → In p (put_pattern ts parts patterns)
In-put_pattern ts none patterns p i = i
In-put_pattern ts (some (before, after)) patterns p i =
    elim (Bool-cases (contains_byte after star)) [ inl t ↦ rw t i | inr f ↦ rw f (there i) ]

In-pattern_subpaths :
    (before after : Str) (targets : List Str) (raw : Assoc Str (List Str))
    → contains_byte before star ≡ false
    → contains_byte after star ≡ false
    → In (before ++ star ∷ after, targets) raw
    → In (pattern_of before after targets) (pattern_subpaths raw)
unfolding pattern_subpaths
In-pattern_subpaths before after targets [] hb ha i = elim i [ ]
In-pattern_subpaths before after targets ((k, ts) ∷ raw) hb ha (here e) =
    let parts : cut k star ≡ some (before, after) =
      ap (λ (entry : Str × List Str). cut entry.0 star) (sym e) ∙ cut-append before after star hb in
    rw (parts, ha) (here (ap (λ (entry : Str × List Str). pattern_of before after entry.1) e))
In-pattern_subpaths before after targets ((k, ts) ∷ raw) hb ha (there i) =
    In-put_pattern ts (cut k star) (pattern_subpaths raw) (pattern_of before after targets)
      (In-pattern_subpaths before after targets raw hb ha i)

pub record Source (p : SubpathPattern) (raw : Assoc Str (List Str)) : Type 0 where
  pub targets : List Str
  pub entry : In (p.prefix ++ star ∷ p.suffix, targets) raw
  pub sorted : p.targets ≡ sorted_targets targets

put_pattern-In :
    (ts : List Str) (parts : Option (Str × Str)) (patterns : List SubpathPattern)
    (p : SubpathPattern)
    → In p (put_pattern ts parts patterns)
    → ((before : Str) × (after : Str) × (parts ≡ some (before, after))
        × (p ≡ pattern_of before after ts))
      ⊎ In p patterns
put_pattern-In ts none patterns p i = inr i
put_pattern-In ts (some (before, after)) patterns p i =
    elim (Bool-cases (contains_byte after star)) [
      | inl t ↦ inr (rw t at i)
      | inr f ↦ elim (rw f at i) [ here e ↦ inl (before, after, refl, e) | there j ↦ inr j ]
    ]

pub pattern_subpaths-Source :
    (raw : Assoc Str (List Str)) (p : SubpathPattern) → In p (pattern_subpaths raw) → Source p raw
unfolding pattern_subpaths
pattern_subpaths-Source [] p i = elim i [ ]
pattern_subpaths-Source ((k, ts) ∷ raw) p i =
    elim (put_pattern-In ts (cut k star) (pattern_subpaths raw) p i) [
      | inr later ↦
          let rest = pattern_subpaths-Source raw p later in
          record { targets = rest.targets; entry = there rest.entry; sorted = rest.sorted }
      | inl (before, after, parts, e) ↦ record {
        targets = ts;
        entry = here (
            ap₂ (λ (a b : Str). (a ++ star ∷ b, ts)) (ap SubpathPattern.prefix e)
              (ap SubpathPattern.suffix e)
            ∙ ap (λ (l : Str). (l, ts)) (sym (cut-some k star before after parts).0));
        sorted = ap SubpathPattern.targets e;
      }
    ]

-- The first pattern of a sorted list that matches.
record First (specifier : Str) (patterns : List SubpathPattern) (p : SubpathPattern) : Type 0 where
  pattern : SubpathPattern
  listed : In pattern patterns
  matches : is_other_pattern specifier pattern ≡ false
  before : (pattern ≡ p) ⊎ (is_after (compare_patterns pattern p) ≡ false)
  result :
      resolve_pattern patterns specifier
      ≡ substituted (matched_part specifier pattern) pattern.targets

resolve_pattern-First :
    (specifier : Str) (patterns : List SubpathPattern) (p : SubpathPattern)
    → IsSortedBy compare_patterns patterns
    → In p patterns
    → is_other_pattern specifier p ≡ false
    → First specifier patterns p
unfolding resolve_pattern
resolve_pattern-First specifier [] p s i h = elim i [ ]
resolve_pattern-First specifier (q ∷ patterns) p s i h =
    elim (Bool-cases (is_other_pattern specifier q)) [
      | inr f ↦ record {
        pattern = q;
        listed = here refl;
        matches = f;
        before = elim i [
          | here e ↦ inl (sym e)
          | there j ↦ inr (All-In (λ w. is_after (compare_patterns q w) ≡ false) patterns s.0 j)
        ];
        result = rw f;
      }
      | inl t ↦
          let later : In p patterns = elim i [
            | here e ↦
                true-false t
                  (subst (λ (w : SubpathPattern). is_other_pattern specifier w ≡ false) e h)
            | there j ↦ j
          ] in
          let rest = resolve_pattern-First specifier patterns p s.1 later h in
          record {
            pattern = rest.pattern;
            listed = there rest.listed;
            matches = rest.matches;
            before = rest.before;
            result = rw t rest.result;
          }
    ]

-- The entry of `raw` with the longest text before its star, and after that the longest behind it, of
-- those that match.
pub record Resolved (raw : Assoc Str (List Str)) (specifier before after : Str) : Type 0 where
  prefix : Str
  suffix : Str
  targets : List Str
  middle : Str
  entry : In (prefix ++ star ∷ suffix, targets) raw
  matches : IsMatch specifier prefix suffix middle
  best :
      (length before < length prefix)
      ⊎ ((length prefix ≡ length before) × (length after ≤ length suffix))
  result :
      resolve_subpath (index_subpaths raw).0 (index_subpaths raw).1 specifier
      ≡ substituted middle (sorted_targets targets)

is_longer :
    (q p : SubpathPattern)
    → (q ≡ p) ⊎ (is_after (compare_patterns q p) ≡ false)
    → (length p.prefix < length q.prefix)
      ⊎ ((length q.prefix ≡ length p.prefix) × (length p.suffix ≤ length q.suffix))
unfolding compare_patterns
is_longer q p (inl e) = inr (
  ap (λ (w : SubpathPattern). length w.prefix) e,
  omega (arith, ap (λ (w : SubpathPattern). length w.suffix) e),
)
is_longer q p (inr h) = ground (arith, h)

-- A specifier that is no exact key, but matches the key of some entry with one star, resolves to the
-- targets of an entry whose key it matches, with what stands for the star put in their place; and of
-- the keys that it matches, none is longer before the star, or as long there and longer behind it.
pub resolve_subpath-Resolved :
    (raw : Assoc Str (List Str)) (specifier before after middle : Str) (targets : List Str)
    → lookup specifier (index_subpaths raw).0 ≡ none
    → In (before ++ star ∷ after, targets) raw
    → contains_byte before star ≡ false
    → contains_byte after star ≡ false
    → IsMatch specifier before after middle
    → Resolved raw specifier before after
unfolding resolve_subpath index_subpaths
resolve_subpath-Resolved raw specifier before after middle targets inexact i hb ha m =
    let p = pattern_of before after targets in
    let patterns = pattern_subpaths raw in
    let first =
      resolve_pattern-First specifier (sort_by compare_patterns patterns) p
        (sort_by-IsSortedBy compare_patterns compare_patterns-IsPreorder patterns)
        (In-sort_by compare_patterns patterns p
          (In-pattern_subpaths before after targets raw hb ha i))
        (is_other_pattern-IsMatch specifier middle p m) in
    let q = first.pattern in
    let source =
      pattern_subpaths-Source raw q (sort_by-In compare_patterns patterns q first.listed) in
    record {
      prefix = q.prefix;
      suffix = q.suffix;
      targets = source.targets;
      middle = matched_part specifier q;
      entry = source.entry;
      matches = IsMatch-is_other_pattern specifier q first.matches;
      best = is_longer q p first.before;
      result =
          ap
            (λ (o : Option (List Str)).
              found_or o (resolve_pattern (sort_by compare_patterns patterns) specifier))
            inexact
          ∙ first.result
          ∙ ap (substituted (matched_part specifier q)) source.sorted;
    }
