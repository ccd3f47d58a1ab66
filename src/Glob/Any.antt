-- ===== src/Glob/Any.antt =====
-- parseGlobExpressions against parseGlobExpression of each pattern (common/glob.go).
use aspect_gazelle.Base.{
  ◌≡◌, refl, ◌∙◌, ap, Bool, true, false, List, [], ◌∷◌, ◌++◌, ◌==◌, nat_eq, list_eq, Str,
  has_prefix, has_suffix, ◌&&◌, ◌||◌, not, any, all, any-append, arith, Bool-cases, Option-cases,
  inl, inr, and-eq_true, ◌≢◌, list_beq,
}
use aspect_gazelle.Base.Exec.{Result, ok, err}
use aspect_gazelle.Base.Exec.Triple.{ok-injective}
use aspect_gazelle.Glob.{
  only_excluded, not_excluded, GlobExpr, Groups, no_groups, add_pattern, any_in_groups, match_ext,
  in_dir, match_pre_post, parse_glob_expression, parse_valid_expression, group_patterns, expr_funcs,
  match_groups, parse_all_expressions, parse_glob_expressions, parse_with_excludes, GlobError,
  is_non_glob, prefix_dir, pre_post, pre_glob, post_glob, PrePost, invalid_pattern,
}
use aspect_gazelle.Glob.Grouping.{any-snoc, any_in_groups-append_to, any-unless_empty}
use aspect_gazelle.Glob.Patterns.{prefix_dir-pre_post}

module _ (matches : Str → Str → Bool) (p : Str) where
  -- Does a pattern of the groups match?
  abbrev grouped : Groups → Bool
  grouped g =
      any (λ exp. p == exp) g.exacts
      || any_in_groups (has_prefix p) (match_ext p) g.pre_posts
      || any (λ dir. in_dir dir p) g.prefix_dirs
      || any_in_groups (has_prefix p) (λ pre exp. matches exp p) g.pre_globs
      || any_in_groups (has_suffix p) (λ post exp. matches exp p) g.post_globs
      || any (λ exp. matches exp p) g.globs

  match_groups-grouped :
      (valid : Str → Bool) (g : Groups) → match_groups matches valid g p ≡ grouped g
  unfolding expr_funcs any_in_groups
  match_groups-grouped valid g = rw (
    any-append,
    any-append,
    any-append,
    any-append,
    any-append,
    any-unless_empty g.exacts (λ q. any (λ exp. q == exp) g.exacts) p (λ e. rw e),
    any-unless_empty g.pre_posts (λ q. any_in_groups (has_prefix q) (match_ext q) g.pre_posts) p
        (λ e. rw e),
    any-unless_empty g.prefix_dirs (λ q. any (λ dir. in_dir dir q) g.prefix_dirs) p (λ e. rw e),
    any-unless_empty g.pre_globs
        (λ q. any_in_groups (has_prefix q) (λ pre exp. matches exp q) g.pre_globs) p (λ e. rw e),
    any-unless_empty g.post_globs
        (λ q. any_in_groups (has_suffix q) (λ post exp. matches exp q) g.post_globs) p (λ e. rw e),
    any-unless_empty g.globs (λ q. any (λ exp. matches exp q) g.globs) p (λ e. rw e),
  )

  match_ext-match_pre_post :
      (t : PrePost) → (has_prefix p t.pre && match_ext p t.pre (t.star, t.ext)) ≡ match_pre_post t p
  unfolding match_pre_post
  match_ext-match_pre_post t = ground arith

  grouped-add_pattern :
      (valid : Str → Bool) (g : Groups) (exp : Str)
      → grouped (add_pattern g exp) ≡ (grouped g || parse_glob_expression matches valid exp p)
  unfolding add_pattern parse_glob_expression
  grouped-add_pattern valid g exp = elim (Bool-cases (is_non_glob exp)) [
    | inl exact ↦ rw exact (ground arith)
    | inr glob ↦ elim (Option-cases (pre_post exp)) [
      | inr (t, e) ↦ elim (Option-cases (prefix_dir exp)) [
        | inr (dir, d) ↦ cc (prefix_dir-pre_post exp dir d, e)
        | inl not_dir ↦
            rw (glob, e, not_dir, any_in_groups-append_to)
              (ground (arith, match_ext-match_pre_post t))
      ]
      | inl no_ext ↦ elim (Option-cases (prefix_dir exp)) [
        | inr (dir, d) ↦ rw (glob, no_ext, d, any-snoc) (ground arith)
        | inl not_dir ↦ elim (Option-cases (pre_glob exp)) [
          | inr (pre, e) ↦ rw (glob, no_ext, not_dir, e, any_in_groups-append_to) (ground arith)
          | inl no_pre ↦ elim (Option-cases (post_glob exp)) [
            | inr (post, e) ↦
                rw (glob, no_ext, not_dir, no_pre, e, any_in_groups-append_to) (ground arith)
            | inl no_post ↦ rw (glob, no_ext, not_dir, no_pre, no_post, any-snoc) (ground arith)
          ]
        ]
      ]
    ]
  ]

  grouped-group_patterns :
      (valid : Str → Bool) (exps : List Str) (g : Groups)
      → all valid exps ≡ true
      → (h : Groups) × (group_patterns matches valid exps g ≡ ok h)
        × (grouped h ≡ (grouped g || any (λ exp. parse_glob_expression matches valid exp p) exps))
  unfolding group_patterns
  grouped-group_patterns valid [] g v = (g, refl, ground arith)
  grouped-group_patterns valid (exp ∷ exps) g v =
      let (first, others) = and-eq_true (valid exp) _ v in
      let (h, e, q) = grouped-group_patterns valid exps (add_pattern g exp) others in
      (h, rw (first, e), q ∙ rw (grouped-add_pattern valid g exp) (ground arith))

abbrev pub run : Result GlobError GlobExpr → Str → Result GlobError Bool
run (ok m) p = ok (m p)
run (err e) p = err e

run-only_excluded :
    (p : Str) (r : Result GlobError GlobExpr) {x : Bool}
    → run r p ≡ ok x
    → run (only_excluded r) p ≡ ok (not x)
run-only_excluded p (ok m) h = ap ok (ap not (ok-injective h))
run-only_excluded p (err e) h = cc (h)

run-not_excluded :
    (p : Str) (excluded included : Result GlobError GlobExpr) {x i : Bool}
    → run excluded p ≡ ok x
    → run included p ≡ ok i
    → run (not_excluded excluded included) p ≡ ok (i && not x)
run-not_excluded p (ok m) (ok n) h k = ap ok (cc (ok-injective h, ok-injective k))
run-not_excluded p (ok m) (err e) h k = cc (k)
run-not_excluded p (err e) included h k = cc (h)

module _ (matches : Str → Str → Bool) (valid : Str → Bool) where
  abbrev pub any_matches : List Str → GlobExpr
  any_matches exps p = any (λ exp. parse_glob_expression matches valid exp p) exps

  -- The matcher for any of the patterns is there if every pattern is valid.
  parse_all_expressions-any :
      (exps : List Str) (p : Str)
      → all valid exps ≡ true
      → run (parse_all_expressions matches valid exps) p ≡ ok (any_matches exps p)
  unfolding parse_all_expressions any_in_groups
  parse_all_expressions-any exps p v =
      let (g, e, q) = grouped-group_patterns matches p valid exps no_groups v in
      rw e (ap ok (match_groups-grouped matches p valid g ∙ q))

  group_patterns-invalid :
      (before after : List Str) (exp : Str) (g : Groups)
      → all valid before ≡ true
      → valid exp ≡ false
      → group_patterns matches valid (before ++ exp ∷ after) g ≡ err (invalid_pattern exp)
  unfolding group_patterns
  group_patterns-invalid [] after exp g v n = rw n
  group_patterns-invalid (x ∷ before) after exp g v n =
      let (first, others) = and-eq_true (valid x) _ v in
      rw (first, group_patterns-invalid before after exp (add_pattern g x) others n)

  -- From one or more valid patterns ParseGlobExpressions makes a matcher, which matches a path
  -- exactly if the matcher of one of the patterns alone does: sorting the patterns into groups
  -- neither loses nor gains a match.
  pub parse_glob_expressions-any :
      (exp : Str) (exps : List Str) (p : Str)
      → all valid (exp ∷ exps) ≡ true
      → run (parse_glob_expressions matches valid (exp ∷ exps)) p ≡ ok (any_matches (exp ∷ exps) p)
  unfolding parse_glob_expressions parse_valid_expression
  parse_glob_expressions-any exp [] p v = ground arith
  parse_glob_expressions-any exp (other ∷ exps) p v =
      parse_all_expressions-any (exp ∷ other ∷ exps) p v

  -- Where a pattern is not valid, ParseGlobExpressions returns the error for the first such one.
  pub parse_glob_expressions-invalid :
      (before after : List Str) (exp : Str)
      → all valid before ≡ true
      → valid exp ≡ false
      → parse_glob_expressions matches valid (before ++ exp ∷ after) ≡ err (invalid_pattern exp)
  unfolding parse_glob_expressions parse_valid_expression parse_all_expressions
  parse_glob_expressions-invalid [] [] exp v n = rw n
  parse_glob_expressions-invalid [] (x ∷ after) exp v n =
      rw (group_patterns-invalid [] (x ∷ after) exp no_groups v n)
  parse_glob_expressions-invalid (x ∷ []) after exp v n =
      rw (group_patterns-invalid (x ∷ []) after exp no_groups v n)
  parse_glob_expressions-invalid (x ∷ y ∷ before) after exp v n =
      rw (group_patterns-invalid (x ∷ y ∷ before) after exp no_groups v n)

  -- From valid patterns, with an include or an exclude among them, ParseGlobExpressionsWithExcludes
  -- makes a matcher of the paths that match an include, or all if there is none, and no exclude.
  pub parse_with_excludes-any :
      (includes excludes : List Str) (p : Str)
      → all valid includes ≡ true
      → all valid excludes ≡ true
      → (includes ++ excludes) ≢ []
      → run (parse_with_excludes matches valid includes excludes) p
        ≡ ok ((includes == [] || any_matches includes p) && not (any_matches excludes p))
  unfolding parse_with_excludes list_beq
  parse_with_excludes-any [] [] p i x some_pattern = absurd (some_pattern refl)
  parse_with_excludes-any (i ∷ includes) [] p vi vx some_pattern =
      parse_glob_expressions-any i includes p vi ∙ ap ok (ground arith)
  parse_with_excludes-any [] (x ∷ excludes) p vi vx some_pattern =
      run-only_excluded p _ (parse_glob_expressions-any x excludes p vx)
  parse_with_excludes-any (i ∷ includes) (x ∷ excludes) p vi vx some_pattern =
      run-not_excluded p _ _ (parse_glob_expressions-any x excludes p vx)
        (parse_glob_expressions-any i includes p vi)
      ∙ ap ok (ground arith)
