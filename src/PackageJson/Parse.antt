-- ===== src/PackageJson/Parse.antt =====
-- language/js/node/package.go: ParsePackageJson over what jsonc decodes.
use aspect_gazelle.Base.{
  Option, none, some, List, [], ◌∷◌, ◌++◌, ◌==◌, ◌||◌, list_eq, nat_eq, Str, codes, slash,
  has_prefix, if◌then◌else◌,
}
use aspect_gazelle.Base.Assoc.{Assoc, lookup, insert}
use aspect_gazelle.Base.Exec.{Result, ok, err}
use aspect_gazelle.GoPath.{clean}
use aspect_gazelle.PackageJson.{PackageJson, index_subpaths}

-- A value below a condition is a text or of another type.
pub data Target : Type 0 where
  text : Str → Target
  null : Target
  conditions : Assoc Str (Option Str) → Target
  other : Target

pub data ExportsField : Type 0 where
  no_exports : ExportsField
  single : Str → ExportsField
  subpaths : Assoc Str Target → ExportsField
  array : List (Option Str) → ExportsField
  other_exports : ExportsField

pub data ImportsField : Type 0 where
  no_imports : ImportsField
  specifiers : Assoc Str Target → ImportsField
  other_imports : ImportsField

pub record NpmPackageJson : Type 0 where
  pub name : Str
  pub main : Str
  pub exports : ExportsField
  pub imports : ImportsField
  pub types : Str
  pub typings : Str
  pub files : List Str

-- The map of raw mappings and the entries, which addExport and addImport both change.
pub record Mapping : Type 0 where
  pub raw : Assoc Str (List Str)
  pub entries : List Str

-- addEntry
abbrev pub add_entry : Str → List Str → List Str
add_entry file entries = entries ++ clean file ∷ []

abbrev pub add_nonempty_entry : Str → List Str → List Str
add_nonempty_entry file entries = if file == [] then entries else add_entry file entries

unfoldable pub export_subpath : Str → Str
unfolding clean
export_subpath subpath = if clean subpath == codes "." then [] else clean subpath

abbrev pub targets_or_nil : Option (List Str) → List Str
targets_or_nil none = []
targets_or_nil (some targets) = targets

abbrev pub append_at : Str → Str → Assoc Str (List Str) → Assoc Str (List Str)
append_at key target raw = insert key (targets_or_nil (lookup key raw) ++ target ∷ []) raw

unfoldable pub add_export : Str → Str → Mapping → Mapping
unfolding export_subpath
add_export subpath file m = record {
  raw = append_at (export_subpath subpath) (clean file) m.raw;
  entries = add_entry (clean file) m.entries;
}

unfoldable pub add_import : Str → Str → Mapping → Mapping
add_import specifier target m = record {
  raw = append_at (clean specifier) target m.raw;
  entries = if has_prefix target (codes "./") then add_entry target m.entries else m.entries;
}

-- The loops over a map of conditions, and over the fields; `add` is addExport or addImport.
abbrev pub add_conditions : (Str → Mapping → Mapping) → Assoc Str (Option Str) → Mapping → Mapping
add_conditions add [] m = m
add_conditions add ((key, some target) ∷ rest) m = add_conditions add rest (add target m)
add_conditions add ((key, none) ∷ rest) m = add_conditions add rest m

abbrev pub add_target : (Str → Mapping → Mapping) → Target → Mapping → Mapping
add_target add (Target.text target) m = add target m
add_target add Target.null m = m
add_target add (Target.conditions e) m = add_conditions add e m
add_target add Target.other m = m

-- A key that does not start with "." is a condition of the package root.
abbrev pub subpath_of_key : Str → Str
subpath_of_key key = if has_prefix key (codes ".") then key else codes "."

unfoldable pub add_subpaths : Assoc Str Target → Mapping → Mapping
unfolding add_export
add_subpaths [] m = m
add_subpaths ((key, export) ∷ exports) m =
    add_subpaths exports (add_target (add_export (subpath_of_key key)) export m)

unfoldable pub add_array : List (Option Str) → Mapping → Mapping
unfolding add_export
add_array [] m = m
add_array (some file ∷ rest) m = add_array rest (add_export (codes ".") file m)
add_array (none ∷ rest) m = add_array rest m

unfoldable pub add_exports : ExportsField → Mapping → Mapping
unfolding add_subpaths add_array
add_exports ExportsField.no_exports m = m
add_exports (ExportsField.single file) m = add_export (codes ".") file m
add_exports (ExportsField.subpaths exports) m = add_subpaths exports m
add_exports (ExportsField.array exports) m = add_array exports m
add_exports ExportsField.other_exports m = m

unfoldable pub add_imports : Assoc Str Target → Mapping → Mapping
unfolding add_import
add_imports [] m = m
add_imports ((key, imprt) ∷ imports) m = add_imports imports (add_target (add_import key) imprt m)

unfoldable pub add_imports_field : ImportsField → Mapping → Mapping
unfolding add_imports
add_imports_field ImportsField.no_imports m = m
add_imports_field (ImportsField.specifiers imports) m = add_imports imports m
add_imports_field ImportsField.other_imports m = m

-- strings.TrimLeft(pattern, "/")
abbrev pub trim_left_slashes : Str → Str
trim_left_slashes [] = []
trim_left_slashes (c ∷ s) = if c == slash then trim_left_slashes s else c ∷ s

-- A pattern of 'files' without its "!", cleaned; `none` where it is outside of the package.
unfoldable pub files_pattern : Str → Option Str
files_pattern pattern =
    let p = clean (trim_left_slashes pattern) in
    if p == codes "." || p == codes ".." || has_prefix p (codes "../") then none else some p

abbrev pub negate : Option Str → Option Str
negate none = none
negate (some p) = some (b'!' ∷ p)

-- The leading "!" is put back.
unfoldable pub file_of : Str → Option Str
unfolding files_pattern
file_of [] = files_pattern []
file_of (c ∷ f) = if c == b'!' then negate (files_pattern f) else files_pattern (c ∷ f)

abbrev pub add_file : Option Str → List Str → List Str
add_file none files = files
add_file (some p) files = p ∷ files

unfoldable pub published_files : List Str → List Str
unfolding file_of
published_files [] = []
published_files (f ∷ files) = add_file (file_of f) (published_files files)

abbrev pub main_entries : NpmPackageJson → List Str
main_entries c =
    add_nonempty_entry c.typings (add_nonempty_entry c.types (add_nonempty_entry c.main []))

-- The entries and the raw exports, and then the raw imports with all entries.
abbrev pub export_mapping : NpmPackageJson → Mapping
export_mapping c = add_exports c.exports (record { raw = []; entries = main_entries c })

abbrev pub import_mapping : NpmPackageJson → Mapping
import_mapping c =
    add_imports_field c.imports (record { raw = []; entries = (export_mapping c).entries })

abbrev pub package_of : NpmPackageJson → PackageJson
package_of c =
    let exports = index_subpaths (export_mapping c).raw in
    let imports = index_subpaths (import_mapping c).raw in
    record {
      name = c.name;
      entries = (import_mapping c).entries;
      files = published_files c.files;
      exports = exports.0;
      export_patterns = exports.1;
      imports = imports.0;
      import_patterns = imports.1;
    }

-- ParsePackageJson
unfoldable pub parse_package_json : {E : Type 0} → Result E NpmPackageJson → Result E PackageJson
unfolding index_subpaths add_exports add_imports_field published_files
parse_package_json (err e) = err e
parse_package_json (ok c) = ok (package_of c)
