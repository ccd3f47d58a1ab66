-- ===== src/Glob/Patterns.antt =====
-- How prefixDirRe and prePostGlobRe of common/glob.go exclude each other.
use aspect_gazelle.Base.{
  ◌≡◌, refl, sym, ◌∙◌, ap, true, none, some, [], ◌∷◌, ◌++◌, nat_eq, list_eq, Str, codes, slash,
  has_suffix, has_suffix-split, ◌&&◌, all, all-append, append_assoc, length, take, arith,
  Bool-cases, inl, inr, and-eq_true, ◌-◌,
}
use aspect_gazelle.Glob.{asterisk, is_plain, plain_prefix, prefix_dir, pre_post}

plain_prefix-append :
    (s r : Str) → all is_plain s ≡ true → plain_prefix (s ++ asterisk ∷ r) ≡ (s, asterisk ∷ r)
unfolding plain_prefix is_plain
plain_prefix-append [] r h = refl
plain_prefix-append (c ∷ s) r h =
    let (first, others) = and-eq_true (is_plain c) _ h in rw (first, plain_prefix-append s r others)

prefix_dir-split :
    (exp dir : Str)
    → prefix_dir exp ≡ some dir
    → (exp ≡ dir ++ codes "/**") × (all is_plain dir ≡ true)
unfolding prefix_dir
prefix_dir-split exp dir h =
    let tested = has_suffix exp (codes "/**") && all is_plain (take (length exp - 3) exp) in
    elim (Bool-cases tested) [
      | inr n ↦ cc (rw (prefix_dir, n) at h)
      | inl e ↦
          let (ends, plain) = and-eq_true (has_suffix exp (codes "/**")) _ e in
          let found : some (take (length exp - 3) exp) ≡ some dir = rw (prefix_dir, e) at h in
          let same : take (length exp - 3) exp ≡ dir = cc in
          let parts : exp ≡ take (length exp - 3) exp ++ codes "/**" =
            has_suffix-split exp (codes "/**") ends in
          (parts ∙ ap (λ (d : Str). d ++ codes "/**") same, rw same at plain)
    ]

pub prefix_dir-pre_post : (exp dir : Str) → prefix_dir exp ≡ some dir → pre_post exp ≡ none
unfolding pre_post is_plain
prefix_dir-pre_post exp dir h =
    let (split, plain) = prefix_dir-split exp dir h in
    let plain_slash : all is_plain (dir ++ slash ∷ []) ≡ true =
      rw (all-append is_plain dir (slash ∷ []), plain) refl in
    let at_star : plain_prefix exp ≡ (dir ++ slash ∷ [], codes "**") =
      ap plain_prefix (split ∙ sym (append_assoc dir (slash ∷ []) (codes "**")))
      ∙ plain_prefix-append (dir ++ slash ∷ []) (asterisk ∷ []) plain_slash in
    rw at_star (ground arith)
