-- ===== src/Glob.antt =====
-- common/glob.go: glob patterns over texts of bytes, with the regular expressions that sort them
-- into those that need no globbing. `matches` is doublestar.MatchUnvalidated and `valid`
-- doublestar.ValidatePattern. The cache of parsed patterns is not modelled.
pub mod Grouping
pub mod Patterns
pub mod Any
pub mod Directory
mod Witnesses
use aspect_gazelle.Base.{
  ℕ, ◌+◌, ◌-◌, Bool, true, false, Option, none, some, List, [], ◌∷◌, ◌++◌, ◌==◌, nat_eq, list_eq,
  option_eq, list_beq, option_beq, Str, codes, slash, has_prefix, has_suffix, contains_byte, length,
  take, drop, get_elem?, leb, ltb, not, ◌&&◌, ◌||◌, all, any, if◌then◌else◌,
}
use aspect_gazelle.Base.Exec.{Result, ok, err}

abbrev pub asterisk : ℕ
asterisk = b'*'

abbrev pub in_range : ℕ → ℕ → ℕ → Bool
in_range low high c = leb low c && leb c high

-- [\w./@-]
unfoldable pub is_plain : ℕ → Bool
is_plain c =
    in_range b'a' b'z' c
    || in_range b'A' b'Z' c
    || in_range b'0' b'9' c
    || c == b'_'
    || c == b'.'
    || c == slash
    || c == b'@'
    || c == b'-'

abbrev pub put_before : ℕ → Str × Str → Str × Str
put_before c (before, after) = (c ∷ before, after)

-- The longest plain prefix, and the rest.
unfoldable pub plain_prefix : Str → Str × Str
plain_prefix [] = ([], [])
plain_prefix (c ∷ s) =
    let rest = plain_prefix s in if is_plain c then put_before c rest else ([], c ∷ s)

-- The longest plain suffix.
unfoldable pub plain_suffix : Str → Str
plain_suffix [] = []
plain_suffix (c ∷ s) = let rest = plain_suffix s in if all is_plain (c ∷ s) then c ∷ s else rest

-- A prefix without the slashes that it ends in.
unfoldable pub trim_slashes : Str → Str
trim_slashes [] = []
trim_slashes (c ∷ s) =
    let rest = trim_slashes s in if c == slash && rest == [] then [] else c ∷ rest

abbrev pub nonempty : Str → Option Str
nonempty [] = none
nonempty (c ∷ s) = some (c ∷ s)

-- nonGlobRe
unfoldable pub is_non_glob : Str → Bool
is_non_glob [] = false
is_non_glob (c ∷ s) = all is_plain (c ∷ s)

-- prefixDirRe, with its group
unfoldable pub prefix_dir : Str → Option Str
prefix_dir exp =
    let dir = take (length exp - 3) exp in
    if has_suffix exp (codes "/**") && all is_plain dir then some dir else none

pub record PrePost : Type 0 where
  pub pre : Str
  pub star : Bool
  pub ext : Str

abbrev pub pre_post_ext : Str → Bool → Str → Option PrePost
pre_post_ext pre star ext =
    if is_non_glob ext then some (record { pre = pre; star = star; ext = ext }) else none

abbrev pub pre_post_star : Str → Str → Option PrePost
pre_post_star pre [] = none
pre_post_star pre (c ∷ s) =
    if c == asterisk then pre_post_ext pre true s else pre_post_ext pre false (c ∷ s)

abbrev pub pre_post_rest : Str × Str → Option PrePost
pre_post_rest (pre, rest) =
    if (pre == [] || has_suffix pre (slash ∷ [])) && has_prefix rest (codes "**/")
    then pre_post_star pre (drop 3 rest)
    else none

-- prePostGlobRe, with its groups
unfoldable pub pre_post : Str → Option PrePost
unfolding plain_prefix has_prefix has_suffix list_beq is_non_glob
pre_post exp = pre_post_rest (plain_prefix exp)

abbrev pub newline : ℕ
newline = 10

-- preGlobRe, with its group; `.` is not a newline.
unfoldable pub pre_glob : Str → Option Str
pre_glob exp =
    if contains_byte exp newline then none else nonempty (trim_slashes (plain_prefix exp).0)

-- postGlobRe, with its group.
unfoldable pub post_glob : Str → Option Str
post_glob exp =
    if contains_byte (take (length exp - length (plain_suffix exp)) exp) newline
    then none
    else nonempty (plain_suffix exp)

-- `p == dir || (len(p) > len(dir) && p[len(dir)] == '/' && strings.HasPrefix(p, dir))`
unfoldable pub in_dir : Str → Str → Bool
in_dir dir p =
    p == dir
    || (ltb (length dir) (length p) && get_elem? p (length dir) == some slash && has_prefix p dir)

-- The part of the test that both matchers share: `strings.HasSuffix(p, ext) && (...)`
unfoldable pub has_ext : Bool → Str → Str → Bool
has_ext star ext p =
    has_suffix p ext && (star || p == ext || get_elem? p (length p - length ext - 1) == some slash)

unfoldable pub match_pre_post : PrePost → Str → Bool
match_pre_post g p =
    if ltb (length p) (length g.pre + length g.ext) || not (has_prefix p g.pre)
    then false
    else has_ext g.star g.ext p

pub data GlobError : Type 0 where
  no_patterns : GlobError
  invalid_pattern : Str → GlobError

abbrev pub GlobExpr : Type 0
GlobExpr = Str → Bool

-- What is kept of each pattern: exacts, prePosts, prefixDirs, preGlobs, postGlobs, globs.
pub record Groups : Type 0 where
  pub exacts : List Str
  pub pre_posts : List (Str × List (Bool × Str))
  pub prefix_dirs : List Str
  pub pre_globs : List (Str × List Str)
  pub post_globs : List (Str × List Str)
  pub globs : List Str

abbrev pub no_groups : Groups
no_groups = record {
  exacts = [];
  pre_posts = [];
  prefix_dirs = [];
  pre_globs = [];
  post_globs = [];
  globs = [];
}

-- `m[key] = append(m[key], x)`
unfoldable pub append_to : {A : Type 0} → Str → A → List (Str × List A) → List (Str × List A)
append_to key x [] = (key, x ∷ []) ∷ []
append_to key x ((k, xs) ∷ m) =
    if k == key then (k, xs ++ x ∷ []) ∷ m else (k, xs) ∷ append_to key x m

unfoldable pub add_pattern : Groups → Str → Groups
add_pattern g exp =
    if is_non_glob exp then (record g { exacts = exp ∷ g.exacts }) else elim (pre_post exp) [
      | some t ↦ record g { pre_posts = append_to t.pre (t.star, t.ext) g.pre_posts }
      | none ↦ elim (prefix_dir exp) [
        | some dir ↦ record g { prefix_dirs = g.prefix_dirs ++ dir ∷ [] }
        | none ↦ elim (pre_glob exp) [
          | some pre ↦ record g { pre_globs = append_to pre exp g.pre_globs }
          | none ↦ elim (post_glob exp) [
            | some post ↦ record g { post_globs = append_to post exp g.post_globs }
            | none ↦ record g { globs = g.globs ++ exp ∷ [] }
          ]
        ]
      ]
    ]

-- The loop over a map of groups: a test of the key, and then one of each item.
unfoldable pub any_in_groups :
    {A : Type 0} → (Str → Bool) → (Str → A → Bool) → List (Str × List A) → Bool
any_in_groups test each [] = false
any_in_groups test each ((key, xs) ∷ m) =
    (test key && any (each key) xs) || any_in_groups test each m

-- Appends a function where there is something for it to look at.
abbrev pub unless_empty : {A : Type 0} → List A → GlobExpr → List GlobExpr
unless_empty [] f = []
unless_empty (x ∷ xs) f = f ∷ []

abbrev pub match_ext : Str → Str → Bool × Str → Bool
match_ext p pre (star, ext) = leb (length pre + length ext) (length p) && has_ext star ext p

abbrev pub not_excluded :
    Result GlobError GlobExpr → Result GlobError GlobExpr → Result GlobError GlobExpr
not_excluded (err e) included = err e
not_excluded (ok excluded) (err e) = err e
not_excluded (ok excluded) (ok included) = ok (λ p. included p && not (excluded p))

abbrev pub only_excluded : Result GlobError GlobExpr → Result GlobError GlobExpr
only_excluded (err e) = err e
only_excluded (ok excluded) = ok (λ p. not (excluded p))

module _ (matches : Str → Str → Bool) (valid : Str → Bool) where
  -- parseGlobExpression
  unfoldable pub parse_glob_expression : Str → GlobExpr
  parse_glob_expression exp p = if is_non_glob exp then p == exp else elim (prefix_dir exp) [
    | some dir ↦ in_dir dir p
    | none ↦ elim (pre_post exp) [
      | some t ↦ match_pre_post t p
      | none ↦ elim (pre_glob exp) [
        | some pre ↦ if not (has_prefix p pre) then false else matches exp p
        | none ↦ elim (post_glob exp) [
          | some post ↦ if not (has_suffix p post) then false else matches exp p
          | none ↦ matches exp p
        ]
      ]
    ]
  ]

  -- ParseGlobExpression
  unfoldable pub parse_valid_expression : Str → Result GlobError GlobExpr
  parse_valid_expression exp =
      if not (valid exp) then err (invalid_pattern exp) else ok (parse_glob_expression exp)

  unfoldable pub group_patterns : List Str → Groups → Result GlobError Groups
  group_patterns [] g = ok g
  group_patterns (exp ∷ exps) g =
      let rest = group_patterns exps (add_pattern g exp) in
      if not (valid exp) then err (invalid_pattern exp) else rest

  -- exprFuncs
  unfoldable pub expr_funcs : Groups → List GlobExpr
  expr_funcs g =
      unless_empty g.exacts (λ p. any (λ exp. p == exp) g.exacts)
      ++ unless_empty g.pre_posts (λ p. any_in_groups (has_prefix p) (match_ext p) g.pre_posts)
      ++ unless_empty g.prefix_dirs (λ p. any (λ dir. in_dir dir p) g.prefix_dirs)
      ++ unless_empty g.pre_globs
          (λ p. any_in_groups (has_prefix p) (λ pre exp. matches exp p) g.pre_globs)
      ++ unless_empty g.post_globs
          (λ p. any_in_groups (has_suffix p) (λ post exp. matches exp p) g.post_globs)
      ++ unless_empty g.globs (λ p. any (λ exp. matches exp p) g.globs)

  abbrev pub match_groups : Groups → GlobExpr
  match_groups g p = any (λ (f : GlobExpr). f p) (expr_funcs g)

  abbrev pub matcher_of : Result GlobError Groups → Result GlobError GlobExpr
  matcher_of (ok g) = ok (match_groups g)
  matcher_of (err e) = err e

  -- parseGlobExpressions
  unfoldable pub parse_all_expressions : List Str → Result GlobError GlobExpr
  parse_all_expressions exps = matcher_of (group_patterns exps no_groups)

  -- ParseGlobExpressions
  unfoldable pub parse_glob_expressions : List Str → Result GlobError GlobExpr
  parse_glob_expressions [] = err no_patterns
  parse_glob_expressions (exp ∷ []) = parse_valid_expression exp
  parse_glob_expressions (exp ∷ other ∷ exps) = parse_all_expressions (exp ∷ other ∷ exps)

  -- ParseGlobExpressionsWithExcludes
  unfoldable pub parse_with_excludes : List Str → List Str → Result GlobError GlobExpr
  parse_with_excludes includes [] = parse_glob_expressions includes
  parse_with_excludes [] (x ∷ excludes) = only_excluded (parse_glob_expressions (x ∷ excludes))
  parse_with_excludes (i ∷ includes) (x ∷ excludes) =
      not_excluded (parse_glob_expressions (x ∷ excludes)) (parse_glob_expressions (i ∷ includes))
