-- ===== src/Glob/Directory.antt =====
-- The patterns `dir/**` of common/glob.go, which match without any globbing.
use aspect_gazelle.Base.{
  ℕ, zero, suc, ◌≡◌, refl, ◌∙◌, ap, ◌↔◌, ◌⊎◌, inl, inr, Bool, true, false, some, [], ◌∷◌, ◌++◌,
  ◌==◌, nat_eq, list_eq, option_eq, list_beq_iff, option_beq_iff, Str, codes, slash, has_prefix,
  has_prefix-split, has_prefix-append, has_suffix-append, all, all-append, arith, length,
  length-append, take-length-append, get_elem?, drop, ltb, and-eq_true, or-eq_true, eq_refl, ◌-◌,
}
use aspect_gazelle.Glob.{is_plain, is_non_glob, prefix_dir, in_dir, parse_glob_expression}

get_elem?-drop : (n : ℕ) (s : Str) (c : ℕ) → get_elem? s n ≡ some c → drop n s ≡ c ∷ drop (suc n) s
get_elem?-drop n [] c h = cc
get_elem?-drop zero (x ∷ s) c h = cc (h)
get_elem?-drop (suc n) (x ∷ s) c h = get_elem?-drop n s c h

get_elem?-length_append : (s r : Str) (c : ℕ) → get_elem? (s ++ c ∷ r) (length s) ≡ some c
get_elem?-length_append [] r c = refl
get_elem?-length_append (x ∷ s) r c = get_elem?-length_append s r c

in_dir→ :
    (dir p : Str) → in_dir dir p ≡ true → (p ≡ dir) ⊎ ((rest : Str) × (p ≡ dir ++ slash ∷ rest))
unfolding in_dir
in_dir→ dir p h = elim (or-eq_true (p == dir) _ h) [
  | inl same ↦ inl ((list_beq_iff p dir).0 same)
  | inr below ↦
      let (guards, starts) = and-eq_true _ (has_prefix p dir) below in
      let (longer, at_slash) = and-eq_true (ltb (length dir) (length p)) _ guards in
      let next = (option_beq_iff (get_elem? p (length dir)) (some slash)).0 at_slash in
      inr (
        drop (suc (length dir)) p,
        has_prefix-split p dir starts
            ∙ ap (λ (r : Str). dir ++ r) (get_elem?-drop (length dir) p slash next),
      )
]

in_dir← : (dir rest : Str) → in_dir dir (dir ++ slash ∷ rest) ≡ true
unfolding in_dir
in_dir← dir rest =
    rw (get_elem?-length_append dir rest slash, has_prefix-append dir (slash ∷ rest))
      (ground (arith, length-append dir (slash ∷ rest), eq_refl (some slash)))

in_dir_self : (dir : Str) → in_dir dir dir ≡ true
unfolding in_dir
in_dir_self dir = rw (eq_refl dir)

non_glob : (dir : Str) → is_non_glob (dir ++ codes "/**") ≡ false
unfolding is_non_glob is_plain
non_glob [] = refl
non_glob (c ∷ dir) = rw (all-append is_plain dir (codes "/**")) (ground arith)

prefix_dir-append :
    (dir : Str)
    → all is_plain dir ≡ true
    → (is_non_glob (dir ++ codes "/**") ≡ false) × (prefix_dir (dir ++ codes "/**") ≡ some dir)
unfolding prefix_dir
prefix_dir-append dir plain =
    (non_glob dir, rw (short, take-length-append, has_suffix-append dir (codes "/**"), plain) refl)
  where
    short : length (dir ++ codes "/**") - 3 ≡ length dir
    short = omega (arith, length-append dir (codes "/**"))

module _ (matches : Str → Str → Bool) (valid : Str → Bool) where
  -- For a directory of plain bytes the matcher of `dir/**` matches the directory and exactly the
  -- paths that go on after it with a slash.
  pub parse_glob_expression-directory :
      (dir p : Str)
      → all is_plain dir ≡ true
      → (parse_glob_expression matches valid (dir ++ codes "/**") p ≡ true)
        ↔ ((p ≡ dir) ⊎ ((rest : Str) × (p ≡ dir ++ slash ∷ rest)))
  unfolding parse_glob_expression
  parse_glob_expression-directory dir p plain =
      let (globbed, is_dir) = prefix_dir-append dir plain in
      rw (globbed, is_dir)
        (
          in_dir→ dir p,
          λ below. elim below [
            | inl same ↦ rw same (in_dir_self dir)
            | inr (rest, e) ↦ rw e (in_dir← dir rest)
          ],
        )
