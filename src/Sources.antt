-- ===== src/Sources.antt =====
-- common/rule/glob.go: the files that an expression of `srcs` names; and the lines of .bazelignore of
-- common/bazel/bazelignore.go. `matches` is doublestar.MatchUnvalidated.
pub mod Expanded
use aspect_gazelle.Base.{
  ◌≡◌, refl, Bool, true, false, Option, none, some, List, [], ◌∷◌, ◌++◌, ◌==◌, ◌&&◌, ◌||◌, not, any,
  nat_eq, list_eq, Str, codes, slash, has_prefix, contains_byte, if◌then◌else◌,
}
use aspect_gazelle.Base.Split.{trim_space}
use aspect_gazelle.GoPath.{clean}
use aspect_gazelle.JsImports.{contains_text}

-- An expression as ExpandSrcs tells them apart. An entry of a list that is no text is none; a glob is
-- what rule.ParseGlobExpr takes for one, with its patterns and its excludes.
pub data SrcsExpr : Type 0 where
  list : List (Option Str) → SrcsExpr
  plus : SrcsExpr → SrcsExpr → SrcsExpr
  glob : List Str → List Str → SrcsExpr
  other : SrcsExpr

-- isLabelRef
unfoldable pub is_label_ref : Str → Bool
is_label_ref [] = false
is_label_ref (c ∷ s) =
    c == b':'
    || has_prefix (c ∷ s) (codes "//")
    || (c == b'@' && contains_text (c ∷ s) (codes "//"))

-- expandSrcsList
unfoldable pub expand_srcs_list : List (Option Str) → List Str
expand_srcs_list [] = []
expand_srcs_list (none ∷ entries) = expand_srcs_list entries
expand_srcs_list (some src ∷ entries) =
    let rest = expand_srcs_list entries in if is_label_ref src then rest else src ∷ rest

abbrev pub append_srcs : Option (List Str) → Option (List Str) → Option (List Str)
append_srcs none right = none
append_srcs (some left) none = none
append_srcs (some left) (some right) = some (left ++ right)

module _ (matches : Str → Str → Bool) where
  abbrev pub glob_matches : List Str → List Str → Str → Bool
  glob_matches patterns excludes file =
      any (λ (p : Str). matches p file) patterns && not (any (λ (p : Str). matches p file) excludes)

  -- expandGlob
  unfoldable pub expand_glob : List Str → List Str → List Str → List Str
  expand_glob patterns excludes [] = []
  expand_glob patterns excludes (file ∷ files) =
      let rest = expand_glob patterns excludes files in
      if glob_matches patterns excludes file then file ∷ rest else rest

  -- ExpandSrcs; what has no value is the error of an expression that is neither a list nor a glob.
  unfoldable pub expand_srcs : List Str → SrcsExpr → Option (List Str)
  unfolding expand_srcs_list expand_glob
  expand_srcs files (list entries) = some (expand_srcs_list entries)
  expand_srcs files (plus x y) = append_srcs (expand_srcs files x) (expand_srcs files y)
  expand_srcs files (glob patterns excludes) = some (expand_glob patterns excludes files)
  expand_srcs files other = none

abbrev pub is_comment : Str → Bool
is_comment [] = true
is_comment (c ∷ s) = c == b'#'

abbrev pub has_glob_byte : Str → Bool
has_glob_byte s = contains_byte s b'*' || contains_byte s b'?' || contains_byte s b'['

abbrev pub ignored_path : Str → Option Str
ignored_path line = if is_comment line || has_glob_byte line then none else some (clean line)

-- The loop of loadBazelIgnore over the lines of the file
unfoldable pub bazel_ignores : List Str → List Str
bazel_ignores [] = []
bazel_ignores (line ∷ lines) = elim (ignored_path (trim_space line)) [
  | none ↦ bazel_ignores lines
  | some path ↦ path ∷ bazel_ignores lines
]

ignores_test :
    bazel_ignores (codes " # no" ∷ codes "" ∷ codes "./a//b/ " ∷ codes "*.c" ∷ [])
    ≡ codes "a/b" ∷ []
unfolding bazel_ignores trim_space clean contains_byte
ignores_test = refl
