-- ===== src/Resolve/Witnesses.antt =====
-- Resolve on small rules: an index with one rule, a raw file, and imports that are unknown.
use aspect_gazelle.GoPath.{clean, ext}
use aspect_gazelle.JsImports.{
  to_out_dir_path, to_import_paths, is_declaration_file_type, is_transpiled_source_file_ext,
  is_implicit_source_file_ext,
}
use aspect_gazelle.JsConfig.Directives.Setters.{proto_aspect_enabled}
use aspect_gazelle.Node.{is_subpath_import, parse_import_path}
use aspect_gazelle.Base.{
  ◌≡◌, refl, true, false, Option, none, some, List, [], ◌∷◌, ◌==◌, ◌&&◌, ◌||◌, Str, String, codes,
  contains_byte, list_beq_iff, Bool-cases, inl, inr, arith, All, list_eq, nat_eq, if◌then◌else◌,
  list_beq, has_suffix, cut, In, here, there, has_prefix, option_beq,
}
use aspect_gazelle.Base.Assoc.{lookup}
use aspect_gazelle.Base.Exec.{ok}
use aspect_gazelle.GoPath.Dirs.{IsSegment}
use aspect_gazelle.JsConfig.{JsGazelleConfig, new_root_config}
use aspect_gazelle.Labels.{Label}
use aspect_gazelle.Pnpm.{ProjectMap, Project, new_project_map}
use aspect_gazelle.Pnpm.Visible.{IsWellKeyed, visible}
use aspect_gazelle.Resolve.{
  ImportKind, ImportStatement, RuleIndex, LabelMethods, TypeScriptLang, language_name,
}
use aspect_gazelle.Resolve.Collect.{collect_imports}
use aspect_gazelle.Resolve.Imports.{OutputAttributes, source_file_imports, embeds}
use aspect_gazelle.Resolve.Provided.{of_out_dir, source_file_imports-provided}
use aspect_gazelle.Resolve.Packages.{
  PackageLookup, cross_resolve, label_result, find_package_self_reference,
}
use aspect_gazelle.Resolve.FileLabels.{add_file_labels, declared, add_file_labels-declared}
use aspect_gazelle.Resolve.Routed.{RoutedResults, together, apart, collect_imports-routed}
use aspect_gazelle.Resolve.Rule.{RuleKind, ImportData, resolve}
use aspect_gazelle.Resolve.Reported.{Reports, resolve-Reports}
use aspect_gazelle.Resolve.Scope.{cross_resolve-visible}
use aspect_gazelle.Resolve.Unknown.{ReportsFrom, collect_imports-Reports}

abbrev label_named : Str → Str → Label
label_named pkg name = record {
  repo = [];
  pkg = pkg;
  name = name;
  relative = false;
  canonical = false;
}

abbrev here_label : Label
here_label = label_named (codes "app") (codes "app")

abbrev methods : LabelMethods
methods = record {
  equal = λ a b. a.pkg == b.pkg && a.name == b.name;
  rel = λ l repo pkg. l;
  string = λ l. l.name;
}

abbrev index : RuleIndex
index = record {
  find_rules_by_import_with_config = λ spec.
      (if spec.imp == codes "lib/a"
        then record { label = label_named (codes "lib") (codes "lib"); embeds = [] } ∷ []
        else []);
  find_rules_by_import = λ spec lang. [];
  find_rule_with_override = λ spec. none;
  is_self_import = λ m from. m.label.pkg == from.pkg;
}

abbrev lang : TypeScriptLang
lang = record {
  file_labels = (codes "app/data", label_named (codes "app") (codes "data.json")) ∷ [];
  module_types = [];
  native_modules = codes "fs" ∷ [];
}

abbrev statement : String → ImportStatement
statement imp = record {
  spec = record { lang = language_name; imp = codes imp };
  source_path = codes "app/a.ts";
  import_path = codes imp;
  kind = ImportKind.import_kind_import;
  optional = false;
  types_only = false;
}

abbrev app_imports : List ImportStatement
app_imports = statement "lib/a" ∷ statement "app/data" ∷ statement "fs" ∷ statement "./nowhere" ∷ []

abbrev no_paths : Str → Str → Option (List Str)
no_paths source f = some []

abbrev root_config : JsGazelleConfig Label
root_config = new_root_config

collected_test :
    collect_imports methods index lang no_paths root_config here_label app_imports (apart [] [] [])
    ≡ ok (record {
      deps = label_named (codes "lib") (codes "lib") ∷ [];
      file_deps = some (label_named (codes "app") (codes "data.json") ∷ []);
      unknown = statement "./nowhere" ∷ [];
    })
unfolding collect_imports new_root_config list_beq cut
collected_test = refl

collect_imports-Reports_example :
    ReportsFrom methods index lang no_paths root_config here_label app_imports (together [] []) (
      collect_imports methods index lang no_paths root_config here_label app_imports
        (together [] []))
collect_imports-Reports_example =
    collect_imports-Reports methods index lang no_paths root_config here_label app_imports
      (together [] [])

collect_imports-routed_example :
    RoutedResults
      (collect_imports methods index lang no_paths root_config here_label app_imports
        (together [] []))
      (collect_imports methods index lang no_paths root_config here_label app_imports
        (apart [] [] []))
collect_imports-routed_example =
    collect_imports-routed methods index lang no_paths root_config here_label app_imports []

abbrev package_data : ImportData
package_data =
    ImportData.package_info
      (record {
        group_name = [];
        imports = app_imports;
        sources = codes "a.js" ∷ [];
        static_deps = [];
      })
      none

resolve-Reports_example :
    Reports methods
      (λ ls. ls)
      index
      lang
      new_project_map
      (λ p. none)
      (λ d. false)
      []
      root_config
      here_label
      []
      app_imports
      (resolve methods
        (λ ls. ls)
        index
        lang
        new_project_map
        (λ p. none)
        (λ d. false)
        []
        root_config
        here_label
        RuleKind.js_library_kind
        package_data)
resolve-Reports_example =
    resolve-Reports methods (λ ls. ls) index lang new_project_map (λ p. none) (λ d. false) []
      root_config here_label RuleKind.js_library_kind package_data

abbrev js_label : Label
js_label = label_named (codes "app") (codes "a.js")

abbrev dts_label : Label
dts_label = label_named (codes "app") (codes "a.d.ts")

declaration_first :
    add_file_labels (λ a b. false) (codes "app/a") (dts_label ∷ js_label ∷ []) []
    ≡ some ((codes "app/a", dts_label) ∷ [])
unfolding add_file_labels list_beq has_suffix
declaration_first = refl

add_file_labels-declared_example :
    declared (lookup (codes "app/a") ((codes "app/a", dts_label) ∷ []))
    ≡ (declared (lookup {V = Label} (codes "app/a") []) || true)
unfolding add_file_labels list_beq has_suffix
add_file_labels-declared_example =
    add_file_labels-declared (λ a b. false) (codes "app/a") (js_label ∷ dts_label ∷ []) []
      ((codes "app/a", dts_label) ∷ []) refl

abbrev source_names : List Str
source_names = codes "src" ∷ codes "app" ∷ []

source_names-IsSegment : All IsSegment source_names
unfolding contains_byte
source_names-IsSegment = (
  record { nonempty = omega arith; no_slash = refl },
  (record { nonempty = omega arith; no_slash = refl }, tt),
)

abbrev react : Label
react = label_named [] (codes "node_modules/react")

abbrev root_project : Project Label
root_project = record {
  workspace = 0;
  project = [];
  references = [];
  packages = (codes "react", react) ∷ [];
}

abbrev one_project : ProjectMap Label
one_project = record { workspaces = []; projects = ([], root_project) ∷ [] }

one_project-IsWellKeyed : IsWellKeyed one_project
unfolding lookup
one_project-IsWellKeyed k p h = elim (Bool-cases ([] == k)) [
  | inl root ↦ cc (rw root at h, (list_beq_iff [] k).0 root)
  | inr other ↦ cc (rw other at h)
]

abbrev packages : PackageLookup
packages = record {
  package_json_dirs = [];
  package_json_at = λ dir. none;
  pnpm_projects = one_project;
}

cross_resolve-visible_example :
    cross_resolve index packages root_config
      (codes "app/src")
      (record { lang = language_name; imp = codes "react/jsx" })
      language_name
    ≡ label_result (visible one_project source_names (codes "react"))
unfolding is_subpath_import parse_import_path cut list_beq find_package_self_reference
    proto_aspect_enabled new_root_config
cross_resolve-visible_example =
    cross_resolve-visible index packages root_config source_names (codes "react/jsx")
      (codes "react") (codes "jsx") one_project-IsWellKeyed source_names-IsSegment refl refl refl
      refl refl

abbrev outputs : OutputAttributes
outputs = record { out_dir = codes "dist"; declaration_dir = none; root_dir = codes "src" }

source_file_imports-provided_example :
    In
      (record { lang = language_name; imp = codes "app/dist/a" })
      (source_file_imports (codes "app") outputs (some (codes "src/a.ts" ∷ [])))
unfolding to_out_dir_path list_beq clean has_prefix option_beq to_import_paths
    is_declaration_file_type has_suffix is_transpiled_source_file_ext ext contains_byte
    is_implicit_source_file_ext
source_file_imports-provided_example =
    source_file_imports-provided (codes "app") (codes "src/a.ts") (codes "dist/a.ts")
      (codes "app/dist/a") outputs (codes "src/a.ts" ∷ []) (here refl) of_out_dir
      (there (there (here refl)))

embeds_test :
    embeds RuleKind.ts_project_kind here_label (codes "a.ts" ∷ codes "b.json" ∷ [])
    ≡ label_named (codes "app") (codes "a.js") ∷ label_named (codes "app") (codes "a.d.ts") ∷ []
unfolding embeds is_transpiled_source_file_ext list_beq contains_byte is_declaration_file_type
    has_suffix
embeds_test = refl
