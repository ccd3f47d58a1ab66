-- ===== src/Resolve/Rule.antt =====
-- language/js/resolve.go: Resolve, which sets the deps and the srcs of a rule.
use aspect_gazelle.Base.{
  Bool, true, false, Option, none, some, List, [], ◌∷◌, ◌++◌, map, Str, codes, if◌then◌else◌,
}
use aspect_gazelle.Base.Exec.{Result, ok, err}
use aspect_gazelle.JsConfig.{JsGazelleConfig}
use aspect_gazelle.Labels.{Label}
use aspect_gazelle.Pnpm.{ProjectMap, find_package}
use aspect_gazelle.TsConfig.{TsConfig}
use aspect_gazelle.TsConfig.Workspace.{WorkspacePath, ConfigFiles, find_config, expand_import_paths}
use aspect_gazelle.Resolve.{ImportStatement, RuleIndex, LabelMethods, TypeScriptLang, Failure}
use aspect_gazelle.Resolve.Collect.{
  Collected, Report, report, add_label, add_labels, collect_imports,
}

pub data RuleKind : Type 0 where
  ts_project_kind js_library_kind ts_config_kind ts_proto_library_kind npm_package_kind : RuleKind
  other_kind : RuleKind

-- TsProjectInfo, with its sets in their order.
pub record TsProjectInfo : Type 0 where
  pub group_name : Str
  pub imports : List ImportStatement
  pub sources : List Str
  pub static_deps : List Label

pub data ImportData : Type 0 where
  package_info : TsProjectInfo → Option Label → ImportData
  project_info : TsProjectInfo → ImportData
  no_info : ImportData

-- The attributes that are set, and what is reported; or the error of an import, with which no
-- attribute is set.
pub record Attributes : Type 0 where
  pub srcs : Option (List Str)
  pub deps : Option (List Label)
  pub report : Report

abbrev pub unset : Attributes
unset = record { srcs = none; deps = none; report = Report.no_report }

-- `if len(…) > 0 { r.SetAttr(…) }`
abbrev pub nonempty_attr : {A : Type 0} → List A → Option (List A)
nonempty_attr [] = none
nonempty_attr (x ∷ xs) = some (x ∷ xs)

abbrev pub is_ts_project : RuleKind → Bool
is_ts_project RuleKind.ts_project_kind = true
is_ts_project _ = false

abbrev pub optional_string : (Label → Str) → Option Label → List Str
optional_string string none = []
optional_string string (some l) = string l ∷ []

-- `values` are the labels of a set of the labels that were put into it, in the set's order.
module _ (methods : LabelMethods) (values : List Label → List Label) where
  abbrev pub strings : List Label → List Str
  strings labels = map methods.string (values labels)

  abbrev pub files_of : Option (List Label) → List Label
  files_of none = []
  files_of (some files) = files

  -- The srcs of a package, with the files that its imports are.
  abbrev pub package_srcs : List Str → Option (List Label) → Option (List Str)
  package_srcs sources file_deps = nonempty_attr (sources ++ strings (files_of file_deps))

  abbrev pub deps_attr : List Label → Option (List Label)
  deps_attr labels = nonempty_attr (values labels)

module _ (methods : LabelMethods) (values : List Label → List Label) (ix : RuleIndex)
    (ts : TypeScriptLang) (pnpm_projects : ProjectMap Label)
    (config_at : WorkspacePath → Option TsConfig) (has_package_json : Str → Bool)
    (files : ConfigFiles) (cfg : JsGazelleConfig Label) (from : Label) where
  abbrev pub with_report : Result Failure Collected → Result Failure (Collected × Report)
  with_report (err e) = err e
  with_report (ok s) = ok (s, report cfg.own.validate_import_statements s.unknown)

  -- resolveImports
  unfoldable pub resolve_imports :
      Str → List ImportStatement → Collected → Result Failure (Collected × Report)
  unfolding collect_imports expand_import_paths report
  resolve_imports group_name imports s = with_report (
      collect_imports methods ix ts
        (λ source f. expand_import_paths config_at has_package_json files source f group_name) cfg
        from imports s)

  abbrev pub helpers_of : Option TsConfig → Bool
  helpers_of none = false
  helpers_of (some c) = c.import_helpers

  abbrev pub add_optional : Option Label → List Label → List Label
  add_optional none labels = labels
  add_optional (some l) labels = add_label methods from l labels

  -- addTsLib
  unfoldable pub add_ts_lib : Str → List Label → List Label
  unfolding find_config find_package add_label
  add_ts_lib group_name deps =
      if helpers_of (find_config config_at has_package_json files from.pkg group_name).config
      then add_optional (find_package pnpm_projects from.pkg (codes "tslib")) deps
      else deps

  abbrev pub all_deps : RuleKind → TsProjectInfo → List Label → List Label
  all_deps kind info deps =
      let with_static = add_labels methods from info.static_deps deps in
      if is_ts_project kind then add_ts_lib info.group_name with_static else with_static

  abbrev pub project_attributes :
      RuleKind → TsProjectInfo → Result Failure (Collected × Report) → Result Failure Attributes
  project_attributes kind info (err e) = err e
  project_attributes kind info (ok (s, reported)) = ok (record {
    srcs = none;
    deps = deps_attr methods values (all_deps kind info s.deps);
    report = reported;
  })

  abbrev pub package_attributes :
      RuleKind → TsProjectInfo → Result Failure (Collected × Report) → Result Failure Attributes
  package_attributes kind info (err e) = err e
  package_attributes kind info (ok (s, reported)) = ok (record {
    srcs = package_srcs methods values info.sources s.file_deps;
    deps = deps_attr methods values (all_deps kind info s.deps);
    report = reported;
  })

  -- A library: the raw files of a package are kept apart.
  unfoldable pub resolve_library : RuleKind → ImportData → Result Failure Attributes
  unfolding resolve_imports add_ts_lib add_label add_labels
  resolve_library kind (ImportData.package_info info source) = package_attributes kind info (
      resolve_imports info.group_name info.imports
        (record { deps = add_optional source []; file_deps = some []; unknown = [] }))
  resolve_library kind (ImportData.project_info info) = project_attributes kind info (
      resolve_imports info.group_name info.imports
        (record { deps = []; file_deps = none; unknown = [] }))
  resolve_library kind ImportData.no_info = ok unset

  abbrev pub npm_attributes :
      TsProjectInfo → Option Label → Result Failure (Collected × Report) → Result Failure Attributes
  npm_attributes info source (err e) = err e
  npm_attributes info source (ok (s, reported)) = ok (record {
    srcs =
        nonempty_attr
          (info.sources ++ strings methods values s.deps ++ optional_string methods.string source);
    deps = none;
    report = reported;
  })

  -- An npm_package has everything in its srcs.
  unfoldable pub resolve_npm_package : ImportData → Result Failure Attributes
  unfolding resolve_imports
  resolve_npm_package (ImportData.package_info info source) = npm_attributes info source (
      resolve_imports info.group_name info.imports
        (record { deps = []; file_deps = none; unknown = [] }))
  resolve_npm_package (ImportData.project_info info) = ok unset
  resolve_npm_package ImportData.no_info = ok unset

  -- Resolve
  unfoldable pub resolve : RuleKind → ImportData → Result Failure Attributes
  unfolding resolve_library resolve_npm_package
  resolve RuleKind.ts_project_kind d = resolve_library RuleKind.ts_project_kind d
  resolve RuleKind.js_library_kind d = resolve_library RuleKind.js_library_kind d
  resolve RuleKind.ts_config_kind d = resolve_library RuleKind.ts_config_kind d
  resolve RuleKind.ts_proto_library_kind d = resolve_library RuleKind.ts_proto_library_kind d
  resolve RuleKind.npm_package_kind d = resolve_npm_package d
  resolve RuleKind.other_kind d = ok unset
