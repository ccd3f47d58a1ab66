-- ===== src/PackageJson.antt =====
-- language/js/node/package.go: what package.json says of the files of a package. A map is a list of
-- its entries in the order in which they are read, and of what jsonc decodes as a field of any type
-- only the types are told apart that the code tells apart.
pub mod Parse
pub mod Matching
pub mod Best
pub mod Additions
pub mod Entries
mod Witnesses
use Prim.Native.Nat.{Ordering, compare}
use aspect_gazelle.Base.{
  ℕ, ◌+◌, ◌-◌, Bool, true, false, Option, none, some, List, [], ◌∷◌, ◌++◌, ◌==◌, ◌||◌, not, nat_eq,
  list_eq, Str, codes, has_prefix, has_suffix, cut, contains_byte, length, take, drop, leb, map,
  if◌then◌else◌,
}
use aspect_gazelle.Base.Assoc.{Assoc, lookup}
use aspect_gazelle.Base.Sort.{sort_by}
use aspect_gazelle.Base.Split.{replace_all}
use aspect_gazelle.Labels.{compare_text, or_compare}

abbrev pub star : ℕ
star = b'*'

pub record SubpathPattern : Type 0 where
  pub prefix : Str
  pub suffix : Str
  pub targets : List Str

pub record PackageJson : Type 0 where
  pub name : Str
  pub entries : List Str
  pub files : List Str
  pub exports : Assoc Str (List Str)
  pub export_patterns : List SubpathPattern
  pub imports : Assoc Str (List Str)
  pub import_patterns : List SubpathPattern

-- The test under which the loop of resolveSubpath goes on to the next pattern.
unfoldable pub is_other_pattern : Str → SubpathPattern → Bool
is_other_pattern specifier pat =
    leb (length specifier) (length pat.prefix + length pat.suffix)
    || not (has_prefix specifier pat.prefix)
    || not (has_suffix specifier pat.suffix)

-- `specifier[len(pat.Prefix) : len(specifier)-len(pat.Suffix)]`; its ends are in order where the test
-- above is false.
abbrev pub matched_part : Str → SubpathPattern → Str
matched_part specifier pat =
    drop (length pat.prefix) (take (length specifier - length pat.suffix) specifier)

abbrev pub substituted : Str → List Str → List Str
substituted matched [] = []
substituted matched (target ∷ targets) =
    replace_all target (star ∷ []) matched ∷ substituted matched targets

unfoldable pub resolve_pattern : List SubpathPattern → Str → List Str
unfolding is_other_pattern
resolve_pattern [] specifier = []
resolve_pattern (pat ∷ patterns) specifier =
    let next = resolve_pattern patterns specifier in
    if is_other_pattern specifier pat
    then next
    else substituted (matched_part specifier pat) pat.targets

abbrev pub found_or : Option (List Str) → List Str → List Str
found_or none next = next
found_or (some targets) next = targets

-- resolveSubpath; the nil slice is the empty list.
unfoldable pub resolve_subpath : Assoc Str (List Str) → List SubpathPattern → Str → List Str
unfolding lookup resolve_pattern
resolve_subpath exact patterns specifier =
    found_or (lookup specifier exact) (resolve_pattern patterns specifier)

-- ResolveImport and ResolveExport
unfoldable pub resolve_import : PackageJson → Str → List Str
unfolding resolve_subpath
resolve_import p specifier = resolve_subpath p.imports p.import_patterns specifier

unfoldable pub resolve_export : PackageJson → Str → List Str
unfolding resolve_subpath
resolve_export p subpath = resolve_subpath p.exports p.export_patterns subpath

-- The function that the patterns are sorted by
unfoldable pub compare_patterns : SubpathPattern → SubpathPattern → Ordering
unfolding compare_text
compare_patterns a b = or_compare (compare (length b.prefix) (length a.prefix)) (
    or_compare (compare (length b.suffix) (length a.suffix))
      (or_compare (compare_text a.prefix b.prefix) (compare_text a.suffix b.suffix)))

-- slices.Sort(targets)
abbrev pub sorted_targets : List Str → List Str
sorted_targets targets = sort_by compare_text targets

-- An exact key; `raw` has a key once, so that it is new in `exact`.
abbrev pub add_exact :
    Str → List Str → Option (Str × Str) → Assoc Str (List Str) → Assoc Str (List Str)
add_exact key targets none exact = (key, sorted_targets targets) ∷ exact
add_exact key targets (some parts) exact = exact

-- A pattern; one with two stars is only reported.
abbrev pub put_pattern : List Str → Option (Str × Str) → List SubpathPattern → List SubpathPattern
put_pattern targets none patterns = patterns
put_pattern targets (some (before, after)) patterns =
    if contains_byte after star
    then patterns
    else record { prefix = before; suffix = after; targets = sorted_targets targets } ∷ patterns

-- The loop of indexSubpaths
unfoldable pub exact_subpaths : Assoc Str (List Str) → Assoc Str (List Str)
unfolding cut sort_by compare_text
exact_subpaths [] = []
exact_subpaths ((key, targets) ∷ raw) = add_exact key targets (cut key star) (exact_subpaths raw)

unfoldable pub pattern_subpaths : Assoc Str (List Str) → List SubpathPattern
unfolding cut contains_byte sort_by compare_text
pattern_subpaths [] = []
pattern_subpaths ((key, targets) ∷ raw) = put_pattern targets (cut key star) (pattern_subpaths raw)

-- indexSubpaths
unfoldable pub index_subpaths : Assoc Str (List Str) → Assoc Str (List Str) × List SubpathPattern
unfolding exact_subpaths pattern_subpaths sort_by compare_patterns
index_subpaths raw = (exact_subpaths raw, sort_by compare_patterns (pattern_subpaths raw))
