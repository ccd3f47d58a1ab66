-- ===== src/PackageJson/Witnesses.antt =====
-- Runs of ParsePackageJson and of ResolveExport on small files.
use aspect_gazelle.GoPath.{clean}
use aspect_gazelle.Base.Split.{replace_all}
use aspect_gazelle.Base.{
  ◌≡◌, refl, Bool, some, List, [], ◌∷◌, Str, codes, here, list_eq, nat_eq, list_beq, has_prefix,
  has_suffix,
}
use aspect_gazelle.Base.Assoc.{Assoc, insert, lookup}
use aspect_gazelle.PackageJson.{PackageJson, resolve_export, resolve_import, index_subpaths}
use aspect_gazelle.PackageJson.Best.{Resolved, resolve_subpath-Resolved}
use aspect_gazelle.PackageJson.Entries.{EntriesCover, parse_package_json-EntriesCover}
use aspect_gazelle.PackageJson.Parse.{
  Target, ExportsField, ImportsField, NpmPackageJson, parse_package_json, package_of, add_exports,
  add_imports_field, published_files,
}

abbrev example : NpmPackageJson
example = record {
  name = codes "@org/lib";
  main = codes "./index.js";
  exports = ExportsField.subpaths (
      (codes "./f/*", Target.text (codes "./src/*.js"))
      ∷ (codes "./f/x/*", Target.conditions ((codes "import", some (codes "./src/x/*.mjs")) ∷ []))
      ∷ (codes "node", Target.text (codes "./node.js"))
      ∷ []);
  imports = ImportsField.specifiers ((codes "#dep", Target.text (codes "lodash")) ∷ []);
  types = [];
  typings = [];
  files = codes "!/lib/" ∷ codes ".." ∷ [];
}

abbrev parsed : PackageJson
parsed = package_of example

resolve_longest : resolve_export parsed (codes "f/x/a") ≡ codes "src/x/a.mjs" ∷ []
unfolding resolve_export index_subpaths add_exports insert list_beq has_prefix has_suffix
    replace_all
resolve_longest = refl

resolve_root : resolve_export parsed [] ≡ codes "node.js" ∷ []
unfolding resolve_export index_subpaths add_exports insert list_beq has_prefix
resolve_root = refl

resolve_dep : resolve_import parsed (codes "#dep") ≡ codes "lodash" ∷ []
unfolding resolve_import index_subpaths add_imports_field insert clean list_beq
resolve_dep = refl

files_test : parsed.files ≡ codes "!lib" ∷ []
unfolding published_files list_beq clean has_prefix
files_test = refl

abbrev raw : Assoc Str (List Str)
raw = (codes "f/*", codes "src/*.js" ∷ []) ∷ (codes "f/x/*", codes "src/x/*.mjs" ∷ []) ∷ []

resolve_subpath-Resolved_example : Resolved raw (codes "f/x/a") (codes "f/") []
unfolding lookup index_subpaths
resolve_subpath-Resolved_example =
    resolve_subpath-Resolved raw (codes "f/x/a") (codes "f/") [] (codes "x/a")
      (codes "src/*.js" ∷ []) refl (here refl) refl refl
      (record { splits = refl; nonempty = λ e. absurd cc })

parse_package_json-EntriesCover_example : EntriesCover parsed
unfolding parse_package_json
parse_package_json-EntriesCover_example =
    parse_package_json-EntriesCover {E = Bool} example parsed refl
