-- ===== src/Glob/Witnesses.antt =====
-- The theorems on glob patterns, over a globbing that matches a path that is the pattern.
use aspect_gazelle.Base.{
  ◌≡◌, refl, Bool, true, List, [], ◌∷◌, ◌==◌, list_eq, nat_eq, ◌&&◌, ◌||◌, not, Str, codes,
  contains_byte,
}
use aspect_gazelle.Base.Exec.{ok}
use aspect_gazelle.Glob.{
  parse_all_expressions, group_patterns, expr_funcs, add_pattern, is_non_glob, pre_post, prefix_dir,
  pre_glob, trim_slashes, append_to, any_in_groups, has_ext, is_plain, parse_glob_expressions,
  parse_with_excludes,
}
use aspect_gazelle.Glob.Any.{run, any_matches, parse_glob_expressions-any, parse_with_excludes-any}

abbrev literally : Str → Str → Bool
literally exp p = exp == p

-- Brackets are not closed.
abbrev no_bracket : Str → Bool
no_bracket exp = not (contains_byte exp b'[')

abbrev sources : List Str
sources = codes "src/**" ∷ codes "**/*.ts" ∷ codes "BUILD" ∷ codes "a?b" ∷ []

abbrev tests : List Str
tests = codes "**/*.spec.ts" ∷ codes "test/**" ∷ []

parse_glob_expressions-any_example :
    run (parse_glob_expressions literally no_bracket sources) (codes "src/a/b.ts")
    ≡ ok (any_matches literally no_bracket sources (codes "src/a/b.ts"))
unfolding contains_byte
parse_glob_expressions-any_example =
    parse_glob_expressions-any literally no_bracket (codes "src/**")
      (codes "**/*.ts" ∷ codes "BUILD" ∷ codes "a?b" ∷ []) (codes "src/a/b.ts") refl

parse_with_excludes-any_example :
    run (parse_with_excludes literally no_bracket sources tests) (codes "src/a.spec.ts")
    ≡ ok (
        (sources == [] || any_matches literally no_bracket sources (codes "src/a.spec.ts"))
        && not (any_matches literally no_bracket tests (codes "src/a.spec.ts")))
unfolding contains_byte
parse_with_excludes-any_example =
    parse_with_excludes-any literally no_bracket sources tests (codes "src/a.spec.ts") refl refl
      (λ e. cc (e))

-- What the patterns match when they are run.
is_source : run (parse_glob_expressions literally no_bracket sources) (codes "lib/b.ts") ≡ ok true
unfolding parse_glob_expressions parse_all_expressions group_patterns contains_byte expr_funcs
    add_pattern is_non_glob is_plain pre_post prefix_dir pre_glob trim_slashes append_to
    any_in_groups has_ext
is_source = refl
