-- ===== src/TsConfig/Expand.antt =====
-- language/js/typescript/tsconfig.go: the paths that an import may mean by a tsconfig. What has no
-- value is the panic of a slice whose ends are out of order. sort.Sort is an insertion.
pub mod Matches
pub mod Sorted
pub mod Order
pub mod AnyOrder
use aspect_gazelle.Base.{
  ℕ, ◌+◌, ◌-◌, Bool, true, false, Option, none, some, List, [], ◌∷◌, ◌++◌, ◌==◌, ◌&&◌, ◌||◌, not,
  nat_eq, list_eq, Str, codes, slash, has_prefix, has_suffix, cut, length, take, drop, leb, ltb,
  if◌then◌else◌,
}
use aspect_gazelle.Base.Assoc.{Assoc, lookup}
use aspect_gazelle.GoPath.{clean, is_abs}
use aspect_gazelle.TsConfig.{TsConfig, list_or_nil}

abbrev pub star : ℕ
star = b'*'

-- isRelativePath
unfoldable pub is_relative_path : Str → Bool
is_relative_path [] = false
is_relative_path (c ∷ p) =
    c == b'.'
    && ((c ∷ p) == codes "."
        || (c ∷ p) == codes ".."
        || has_prefix (c ∷ p) (codes "./")
        || has_prefix (c ∷ p) (codes "../"))

abbrev pub is_here : Str → Bool
is_here p = p == [] || p == codes "."

-- cleanJoin3
unfoldable pub clean_join3 : Str → Str → Str → Str
clean_join3 a b c =
    if is_here a
    then (if is_here b then clean c else clean (b ++ slash ∷ c))
    else (if is_here b then clean (a ++ slash ∷ c) else clean (a ++ slash ∷ b ++ slash ∷ c))

-- expandBaseUrl and expandPathsMatch
unfoldable pub expand_base_url : TsConfig → Str → Str
expand_base_url c import_path =
    clean_join3 (if is_abs import_path then [] else c.config_dir) c.base_url import_path

unfoldable pub expand_paths_match : TsConfig → Str → Str
expand_paths_match c import_path =
    clean_join3 (if is_abs import_path then [] else c.config_dir) c.paths.rel import_path

-- match
pub record Match : Type 0 where
  pub prefix : Str
  pub suffix : Str
  pub original_paths : List Str

-- The pattern of a key that the import matches.
unfoldable pub match_of : Str → Str → List Str → Option Match
match_of p key original_paths = elim (cut key star) [
  | none ↦ none
  | some (before, after) ↦
      if has_prefix p before && has_suffix p after
      then some (record { prefix = before; suffix = after; original_paths = original_paths })
      else none
]

abbrev pub add_match : Option Match → List Match → List Match
add_match none matches = matches
add_match (some m) matches = m ∷ matches

-- The loop over the map of paths, in some order of its entries.
unfoldable pub possible_matches : Str → Assoc Str (List Str) → List Match
unfolding match_of
possible_matches p [] = []
possible_matches p ((key, original_paths) ∷ path_map) =
    add_match (match_of p key original_paths) (possible_matches p path_map)

-- matchArray.Less
unfoldable pub less : Match → Match → Bool
less a b =
    ltb (length b.prefix) (length a.prefix)
    || (length a.prefix == length b.prefix && ltb (length b.suffix) (length a.suffix))

unfoldable pub insert_match : Match → List Match → List Match
insert_match m [] = m ∷ []
insert_match m (n ∷ ns) = let rest = insert_match m ns in if less n m then n ∷ rest else m ∷ n ∷ ns

unfoldable pub sort_matches : List Match → List Match
unfolding insert_match
sort_matches [] = []
sort_matches (m ∷ ms) = insert_match m (sort_matches ms)

-- `p[len(prefix) : len(p)-len(suffix)]`
unfoldable pub matched_text : Str → Match → Option Str
matched_text p m =
    if leb (length m.prefix + length m.suffix) (length p)
    then some (drop (length m.prefix) (take (length p - length m.suffix) p))
    else none

-- strings.Replace(originalPath, "*", text, 1)
unfoldable pub replace_star : Str → Str → Str
replace_star original text = elim (cut original star) [
  | none ↦ original
  | some (before, after) ↦ before ++ text ++ after
]

abbrev pub prepend : Option Str → Option (List Str) → Option (List Str)
prepend none rest = none
prepend (some path) none = none
prepend (some path) (some rest) = some (path ∷ rest)

abbrev pub mapped : TsConfig → Str → Option Str → Option Str
mapped c original none = none
mapped c original (some text) = some (expand_paths_match c (replace_star original text))

-- The paths of a match, and then the rest.
unfoldable pub expand_originals :
    TsConfig → Str → Match → List Str → Option (List Str) → Option (List Str)
unfolding matched_text replace_star expand_paths_match
expand_originals c p m [] rest = rest
expand_originals c p m (original ∷ originals) rest =
    prepend (mapped c original (matched_text p m)) (expand_originals c p m originals rest)

unfoldable pub expand_matches : TsConfig → Str → List Match → Option (List Str) → Option (List Str)
unfolding expand_originals
expand_matches c p [] rest = rest
expand_matches c p (m ∷ ms) rest =
    expand_originals c p m m.original_paths (expand_matches c p ms rest)

abbrev pub exact_paths : TsConfig → List Str → List Str
exact_paths c [] = []
exact_paths c (m ∷ ms) = expand_paths_match c m ∷ exact_paths c ms

abbrev pub root_dir_paths : Str → List Str → List Str
root_dir_paths p [] = []
root_dir_paths p (v ∷ vs) = clean_join3 v [] p ∷ root_dir_paths p vs

abbrev pub after_all : List Str → Option (List Str) → Option (List Str)
after_all exact none = none
after_all exact (some rest) = some (exact ++ rest)

-- What follows the matches: the base URL, and the virtual root directories.
abbrev pub other_paths : TsConfig → Str → List Str
other_paths c p =
    (if is_relative_path p then [] else expand_base_url c p ∷ [])
    ++ root_dir_paths p (list_or_nil c.virtual_root_dirs)

-- ExpandPaths
unfoldable pub expand_paths : TsConfig → Str → Option (List Str)
unfolding lookup possible_matches sort_matches expand_matches expand_base_url is_relative_path
expand_paths c p =
    after_all (exact_paths c (list_or_nil (lookup p c.paths.map)))
      (expand_matches c p (sort_matches (possible_matches p c.paths.map)) (some (other_paths c p)))
