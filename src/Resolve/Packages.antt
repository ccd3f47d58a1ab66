-- ===== src/Resolve/Packages.antt =====
-- language/js/resolve.go: CrossResolve, and the imports of packages by package.json and node_modules.
-- getPackageJson, the directories of package.json and the memo of their contents are of
-- language/js/generate.go.
use aspect_gazelle.Base.{
  ℕ, zero, suc, Bool, true, false, Option, none, some, List, [], ◌∷◌, ◌++◌, ◌==◌, not, any, list_eq,
  nat_eq, Str, codes, has_prefix, length, if◌then◌else◌,
}
use aspect_gazelle.Base.Assoc.{Assoc, lookup, insert}
use aspect_gazelle.GoPath.{join}
use aspect_gazelle.GoPath.Dirs.{parent_dir}
use aspect_gazelle.JsConfig.{JsGazelleConfig}
use aspect_gazelle.JsConfig.Directives.Setters.{proto_aspect_enabled}
use aspect_gazelle.JsImports.Protos.{js_proto_imp_to_proto_src}
use aspect_gazelle.Labels.{Label}
use aspect_gazelle.Node.{parse_import_path, is_subpath_import}
use aspect_gazelle.PackageJson.{PackageJson, resolve_import, resolve_export}
use aspect_gazelle.Pnpm.{ProjectMap, find_package}
use aspect_gazelle.Resolve.{ImportSpec, FindResult, RuleIndex, language_name}

-- A key of packageJsonDirs
abbrev pub has_dir : List Str → Str → Bool
has_dir dirs rel = any (λ (d : Str). rel == d) dirs

-- The loop of packageScopeDir, on fuel.
unfoldable pub package_scope_loop : ℕ → List Str → Str → Option Str
unfolding parent_dir
package_scope_loop zero dirs rel = if has_dir dirs rel then some rel else none
package_scope_loop (suc fuel) dirs rel =
    let around = package_scope_loop fuel dirs (parent_dir rel) in
    if has_dir dirs rel then some rel else if rel == [] then none else around

-- packageScopeDir
unfoldable pub package_scope_dir : List Str → Str → Option Str
unfolding package_scope_loop
package_scope_dir dirs rel = package_scope_loop (length rel) dirs rel

abbrev pub Memo : Type 0
Memo = Assoc Str PackageJson

abbrev pub memo_read : Str → Option PackageJson → Memo → Option PackageJson × Memo
memo_read rel none memo = (none, memo)
memo_read rel (some p) memo = (some p, insert rel p memo)

abbrev pub memo_or_read :
    Str → Option PackageJson → Option PackageJson → Memo → Option PackageJson × Memo
memo_or_read rel (some p) read memo = (some p, memo)
memo_or_read rel none read memo = memo_read rel read memo

-- getPackageJson: `read` is what LoadOrStoreFile gives for a directory, with `none` for an error; the
-- results are the value and packageJsons.
unfoldable pub get_package_json :
    List Str → (Str → Option PackageJson) → Str → Memo → Option PackageJson × Memo
unfolding lookup insert
get_package_json dirs read rel memo =
    if has_dir dirs rel then memo_or_read rel (lookup rel memo) (read rel) memo else (none, memo)

-- What a package is looked up in: `package_json_at` is the value of getPackageJson.
pub record PackageLookup : Type 0 where
  pub package_json_dirs : List Str
  pub package_json_at : Str → Option PackageJson
  pub pnpm_projects : ProjectMap Label

abbrev pub label_result : Option Label → List FindResult
label_result none = []
label_result (some l) = record { label = l; embeds = [] } ∷ []

module _ (ix : RuleIndex) (ts : PackageLookup) where
  -- The rules of files of a package.
  unfoldable pub find_files : Str → List Str → List FindResult
  unfolding join
  find_files package_dir [] = []
  find_files package_dir (file ∷ files) =
      ix.find_rules_by_import (record { lang = language_name; imp = join package_dir file })
        language_name
      ++ find_files package_dir files

  abbrev pub files_of_export : Str → Str → Str → Option PackageJson → List FindResult
  files_of_export package_dir imp_pkg imp_subpath none = []
  files_of_export package_dir imp_pkg imp_subpath (some p) =
      if p.name == imp_pkg then find_files package_dir (resolve_export p imp_subpath) else []

  abbrev pub self_reference_in : Str → Str → Option Str → List FindResult
  self_reference_in imp_pkg imp_subpath none = []
  self_reference_in imp_pkg imp_subpath (some package_dir) =
      files_of_export package_dir imp_pkg imp_subpath (ts.package_json_at package_dir)

  -- findPackageSelfReference
  unfoldable pub find_package_self_reference : Str → Str → Str → List FindResult
  unfolding package_scope_dir resolve_export find_files
  find_package_self_reference from imp_pkg imp_subpath =
      self_reference_in imp_pkg imp_subpath (package_scope_dir ts.package_json_dirs from)

  abbrev pub self_or_package : List FindResult → Option Label → List FindResult
  self_or_package (r ∷ refs) pkg = r ∷ refs
  self_or_package [] pkg = label_result pkg

  -- findPackageImport
  unfoldable pub find_package_import : Str → Str → Str → List FindResult
  unfolding find_package_self_reference find_package
  find_package_import from imp_pkg imp_subpath =
      self_or_package (find_package_self_reference from imp_pkg imp_subpath)
        (find_package ts.pnpm_projects from imp_pkg)

  abbrev pub package_target : Str → Str × Str → List FindResult
  package_target from (imp_pkg, imp_subpath) =
      if imp_pkg == [] then [] else find_package_import from imp_pkg imp_subpath

  -- The loop over the targets of a subpath import.
  unfoldable pub find_targets : Str → Str → List Str → List FindResult
  unfolding join parse_import_path find_package_import
  find_targets package_dir from [] = []
  find_targets package_dir from (target ∷ targets) =
      (if has_prefix target (codes "./")
        then ix.find_rules_by_import
            (record { lang = language_name; imp = join package_dir target }) language_name
        else package_target from (parse_import_path target))
      ++ find_targets package_dir from targets

  abbrev pub targets_of_import : Str → Str → Str → Option PackageJson → List FindResult
  targets_of_import package_dir from imp none = []
  targets_of_import package_dir from imp (some p) =
      find_targets package_dir from (resolve_import p imp)

  abbrev pub subpath_import_in : Str → Str → Option Str → List FindResult
  subpath_import_in from imp none = []
  subpath_import_in from imp (some package_dir) =
      targets_of_import package_dir from imp (ts.package_json_at package_dir)

  -- findSubpathImport
  unfoldable pub find_subpath_import : Str → Str → List FindResult
  unfolding package_scope_dir resolve_import find_targets
  find_subpath_import from imp =
      subpath_import_in from imp (package_scope_dir ts.package_json_dirs from)

  abbrev pub proto_rules : Bool → Option Str → List FindResult
  proto_rules false proto_src = []
  proto_rules true none = []
  proto_rules true (some proto_src) =
      ix.find_rules_by_import (record { lang = codes "proto"; imp = proto_src }) (codes "proto")

  -- Imports of packages, and of subpaths of the importing package.
  abbrev pub package_rules : Str → Str → List FindResult
  package_rules from imp =
      if is_subpath_import imp
      then find_subpath_import from imp
      else package_target from (parse_import_path imp)

  -- CrossResolve
  unfoldable pub cross_resolve : JsGazelleConfig Label → Str → ImportSpec → Str → List FindResult
  unfolding is_subpath_import find_subpath_import parse_import_path find_package_import
      proto_aspect_enabled js_proto_imp_to_proto_src
  cross_resolve cfg from_rel imp lang =
      if not (imp.lang == language_name)
      then []
      else (package_rules from_rel imp.imp
          ++ proto_rules (proto_aspect_enabled cfg.own) (js_proto_imp_to_proto_src imp.imp)
          ++ (if lang == language_name then [] else ix.find_rules_by_import imp language_name))
