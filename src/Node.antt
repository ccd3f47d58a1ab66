-- ===== src/Node.antt =====
-- language/js/node/paths.go: import paths of node packages.
pub mod Laws
mod Witnesses
use aspect_gazelle.Base.{
  ℕ, ◌≡◌, refl, Bool, true, false, Option, none, some, List, [], ◌∷◌, ◌++◌, ◌==◌, nat_eq, ◌||◌, Str,
  codes, slash, cut, has_prefix, any, list_eq, if◌then◌else◌,
}

abbrev pub at_sign : ℕ
at_sign = b'@'

abbrev pub after_scope : Str → Str → Option (Str × Str) → Str × Str
after_scope scope imp none = (imp, [])
after_scope scope imp (some (name, sub)) = (scope ++ slash ∷ name, sub)

abbrev pub scoped : Str → Option (Str × Str) → Str × Str
scoped imp none = ([], imp)
scoped imp (some (scope, sub_pkg)) = after_scope scope imp (cut sub_pkg slash)

abbrev pub unscoped : Str → Option (Str × Str) → Str × Str
unscoped imp none = (imp, [])
unscoped imp (some (before, after)) = (before, after)

-- ParseImportPath: the package and the path within it; no package for the path of a file. The
-- searches for a slash are those of strings.IndexByte and strings.Cut.
unfoldable pub parse_import_path : Str → Str × Str
parse_import_path [] = ([], [])
parse_import_path (c ∷ s) =
    if c == slash || c == b'.'
    then ([], c ∷ s)
    else if c == at_sign
    then scoped (c ∷ s) (cut (c ∷ s) slash)
    else unscoped (c ∷ s) (cut (c ∷ s) slash)

unfoldable pub is_subpath_import : Str → Bool
unfolding has_prefix
is_subpath_import imp = has_prefix imp (codes "#")

abbrev pub scoped_types : Option (Str × Str) → Str
scoped_types none = []
scoped_types (some (scope, name)) = codes "@types/" ++ scope ++ codes "__" ++ name

abbrev pub unscoped_types : Str → Option (Str × Str) → Str
unscoped_types pkg none = codes "@types/" ++ pkg
unscoped_types pkg (some (before, after)) = codes "@types/" ++ before

-- ToAtTypesPackage; `none` is the panic of `pkg[0]` on an empty text. `pkg[1:i]` is the scope
-- without its `@`, which is no slash.
unfoldable pub to_at_types_package : Str → Option Str
to_at_types_package [] = none
to_at_types_package (c ∷ s) = some (
    if c == at_sign
    then (scoped_types (cut s slash))
    else (unscoped_types (c ∷ s) (cut (c ∷ s) slash)))

-- IsNodeImport; `native_modules` is the list of std_modules.list.
unfoldable pub is_node_import : List Str → Str → Bool
unfolding has_prefix
is_node_import native_modules imprt =
    has_prefix imprt (codes "node:") || any (λ (m : Str). imprt == m) native_modules
