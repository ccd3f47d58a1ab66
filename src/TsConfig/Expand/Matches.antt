-- ===== src/TsConfig/Expand/Matches.antt =====
-- What the matches of an import are, and where the text between prefix and suffix is out of bounds.
use aspect_gazelle.Base.{
  ◌+◌, ◌-◌, ◌≡◌, refl, sym, ◌∙◌, ap, Bool, true, false, Option, none, some, List, [], ◌∷◌, ◌==◌,
  ◌&&◌, ◌||◌, not, nat_eq, list_eq, list_beq_iff, Str, any, has_prefix, has_suffix, list_beq,
  has_prefix-split, take-length-append, length, take, drop, leb, Bool-cases, inl, inr, arith,
}
use aspect_gazelle.Base.Assoc.{lookup}
use aspect_gazelle.TsConfig.{TsConfig, list_or_nil}
use aspect_gazelle.TsConfig.Expand.{
  Match, possible_matches, insert_match, sort_matches, matched_text, expand_originals,
  expand_matches, prepend, after_all, other_paths, expand_paths, exact_paths,
}

pub prefix-take : (s p : Str) → has_prefix s p ≡ true → p ≡ take (length p) s
prefix-take s p h =
    sym (ap (take (length p)) (has_prefix-split s p h) ∙ take-length-append p (drop (length p) s))

pub suffix-drop : (s p : Str) → has_suffix s p ≡ true → p ≡ drop (length s - length p) s
unfolding has_suffix
suffix-drop s p h = ground (arith, list_beq_iff (drop (length s - length p) s) p)

abbrev pub is_none : {A : Type 0} → Option A → Bool
is_none none = true
is_none (some a) = false

-- A match that has paths, of an import in which its prefix and its suffix overlap.
abbrev pub overlaps : Str → Match → Bool
overlaps p m =
    not (leb (length m.prefix + length m.suffix) (length p)) && not (m.original_paths == [])

is_none-prepend :
    (path : Str) (rest : Option (List Str)) → is_none (prepend (some path) rest) ≡ is_none rest
is_none-prepend path none = refl
is_none-prepend path (some rest) = refl

is_none-expand_originals :
    (c : TsConfig) (p : Str) (m : Match) (originals : List Str) (rest : Option (List Str))
    → is_none (expand_originals c p m originals rest) ≡ (
        (not (leb (length m.prefix + length m.suffix) (length p)) && not (originals == []))
        || is_none rest)
unfolding expand_originals list_beq matched_text
is_none-expand_originals c p m [] rest = ground arith
is_none-expand_originals c p m (o ∷ originals) rest =
    elim (Bool-cases (leb (length m.prefix + length m.suffix) (length p))) [
      | inl fits ↦
          rw (matched_text, fits, is_none-prepend)
            (ground (arith, is_none-expand_originals c p m originals rest))
      | inr over ↦ rw (matched_text, over)
    ]

is_none-expand_matches :
    (c : TsConfig) (p : Str) (ms : List Match) (rest : Option (List Str))
    → is_none (expand_matches c p ms rest) ≡ (any (overlaps p) ms || is_none rest)
unfolding expand_matches
is_none-expand_matches c p [] rest = refl
is_none-expand_matches c p (m ∷ ms) rest = ground (
  arith,
  is_none-expand_originals c p m m.original_paths (expand_matches c p ms rest),
  is_none-expand_matches c p ms rest,
)

any-insert_match :
    (f : Match → Bool) (m : Match) (ns : List Match) → any f (insert_match m ns) ≡ (f m || any f ns)
unfolding insert_match
any-insert_match f m [] = refl
any-insert_match f m (n ∷ ns) = ground (arith, any-insert_match f m ns)

any-sort_matches : (f : Match → Bool) (ms : List Match) → any f (sort_matches ms) ≡ any f ms
unfolding sort_matches
any-sort_matches f [] = refl
any-sort_matches f (m ∷ ms) =
    any-insert_match f m (sort_matches ms) ∙ ap (◌||◌ (f m)) (any-sort_matches f ms)

is_none-after_all :
    (exact : List Str) (rest : Option (List Str)) → is_none (after_all exact rest) ≡ is_none rest
is_none-after_all exact none = refl
is_none-after_all exact (some paths) = refl

-- ExpandPaths panics exactly if some key of the map of paths matches the import, has paths, and has
-- a prefix and a suffix that overlap in the import.
pub is_none-expand_paths :
    (c : TsConfig) (p : Str)
    → is_none (expand_paths c p) ≡ any (overlaps p) (possible_matches p c.paths.map)
unfolding expand_paths
is_none-expand_paths c p =
    let ms = possible_matches p c.paths.map in
    let others = some (other_paths c p) in
    is_none-after_all (exact_paths c (list_or_nil (lookup p c.paths.map)))
      (expand_matches c p (sort_matches ms) others)
    ∙ is_none-expand_matches c p (sort_matches ms) others
    ∙ ground (arith, any-sort_matches (overlaps p) ms)
