-- ===== src/Resolve/Reported.antt =====
-- What Resolve reports of the imports of a rule.
use aspect_gazelle.Base.{◌≡◌, refl, ◌∙◌, ap, Bool, Option, List, [], ◌++◌, ◌∷◌, Str, subst}
use aspect_gazelle.Base.Exec.{Result, ok, err}
use aspect_gazelle.JsConfig.{JsGazelleConfig, ValidationMode}
use aspect_gazelle.Labels.{Label}
use aspect_gazelle.Pnpm.{ProjectMap}
use aspect_gazelle.TsConfig.{TsConfig}
use aspect_gazelle.TsConfig.Workspace.{WorkspacePath, ConfigFiles, expand_import_paths}
use aspect_gazelle.Resolve.{ImportStatement, RuleIndex, LabelMethods, TypeScriptLang, Failure}
use aspect_gazelle.Resolve.Collect.{
  Collected, Report, no_report, import_error, import_warning, report,
}
use aspect_gazelle.Resolve.Rule.{
  RuleKind, TsProjectInfo, ImportData, Attributes, with_report, resolve_imports, project_attributes,
  package_attributes, npm_attributes, resolve_library, resolve_npm_package, resolve,
}
use aspect_gazelle.Resolve.Unknown.{unknown_of, ReportsFrom, collect_imports-Reports}

abbrev info_imports : ImportData → List ImportStatement
info_imports (ImportData.package_info info source) = info.imports
info_imports (ImportData.project_info info) = info.imports
info_imports ImportData.no_info = []

abbrev package_imports : ImportData → List ImportStatement
package_imports (ImportData.package_info info source) = info.imports
package_imports (ImportData.project_info info) = []
package_imports ImportData.no_info = []

-- The imports that a rule of a kind depends by, and their group.
abbrev pub imports_of : RuleKind → ImportData → List ImportStatement
imports_of RuleKind.npm_package_kind d = package_imports d
imports_of RuleKind.other_kind d = []
imports_of _ d = info_imports d

abbrev pub group_of : ImportData → Str
group_of (ImportData.package_info info source) = info.group_name
group_of (ImportData.project_info info) = info.group_name
group_of ImportData.no_info = []

-- What validation promises of the imports that are unknown, and a report of them.
pub data IsReportOf : ValidationMode → List ImportStatement → Report → Type 0 where
  nothing_unknown : {mode : ValidationMode} → IsReportOf mode [] no_report
  not_validated :
      {unknown : List ImportStatement} → IsReportOf ValidationMode.validation_off unknown no_report
  fails :
      {imp : ImportStatement} {imports : List ImportStatement}
      → IsReportOf ValidationMode.validation_error (imp ∷ imports) (import_error (imp ∷ imports))
  warns :
      {imp : ImportStatement} {imports : List ImportStatement}
      → IsReportOf ValidationMode.validation_warn (imp ∷ imports) (import_warning (imp ∷ imports))

report-IsReportOf :
    (mode : ValidationMode) (unknown : List ImportStatement)
    → IsReportOf mode unknown (report mode unknown)
unfolding report
report-IsReportOf mode [] = nothing_unknown
report-IsReportOf ValidationMode.validation_error (imp ∷ imports) = fails
report-IsReportOf ValidationMode.validation_warn (imp ∷ imports) = warns
report-IsReportOf ValidationMode.validation_off (imp ∷ imports) = not_validated

module _ (methods : LabelMethods) (values : List Label → List Label) (ix : RuleIndex)
    (ts : TypeScriptLang) (pnpm_projects : ProjectMap Label)
    (config_at : WorkspacePath → Option TsConfig) (has_package_json : Str → Bool)
    (files : ConfigFiles) (cfg : JsGazelleConfig Label) (from : Label) where
  abbrev pub expand : Str → Str → Str → Option (List Str)
  expand g source f = expand_import_paths config_at has_package_json files source f g

  -- A report by the mode of validation, of the unknown ones of some imports.
  abbrev pub ReportsUnknown : Str → List ImportStatement → Report → Type 0
  ReportsUnknown g imports =
      IsReportOf cfg.own.validate_import_statements
        (unknown_of methods ix ts (expand g) cfg from imports)

  abbrev IsReported : Str → List ImportStatement → Result Failure (Collected × Report) → Type 0
  IsReported g imports (err e) = Unit
  IsReported g imports (ok (s, r)) = ReportsUnknown g imports r

  with_report-IsReported :
      (g : Str) (imports : List ImportStatement) (s : Collected) (r : Result Failure Collected)
      → s.unknown ≡ []
      → ReportsFrom methods ix ts (expand g) cfg from imports s r
      → IsReported g imports (
          with_report methods values ix ts pnpm_projects config_at has_package_json files cfg from
            r)
  with_report-IsReported g imports s (err e) n h = tt
  with_report-IsReported g imports s (ok t) n h =
      let mode = cfg.own.validate_import_statements in
      subst (λ (u : List ImportStatement). IsReportOf mode u (report mode t.unknown))
        (h
          ∙ ap
              (λ (u : List ImportStatement).
                u ++ unknown_of methods ix ts (expand g) cfg from imports)
              n)
        (report-IsReportOf mode t.unknown)

  resolve_imports-IsReported :
      (g : Str) (imports : List ImportStatement) (s : Collected)
      → s.unknown ≡ []
      → IsReported g imports (
          resolve_imports methods values ix ts pnpm_projects config_at has_package_json files cfg
            from g imports s)
  unfolding resolve_imports
  resolve_imports-IsReported g imports s n =
      with_report-IsReported g imports s _ n
        (collect_imports-Reports methods ix ts (expand g) cfg from imports s)

  -- The report among the attributes; none of them is set with an error.
  abbrev pub Reports : Str → List ImportStatement → Result Failure Attributes → Type 0
  Reports g imports (err e) = Unit
  Reports g imports (ok a) = ReportsUnknown g imports a.report

  project_attributes-Reports :
      (kind : RuleKind) (info : TsProjectInfo) (g : Str) (imports : List ImportStatement)
      (r : Result Failure (Collected × Report))
      → IsReported g imports r
      → Reports g imports (
          project_attributes methods values ix ts pnpm_projects config_at has_package_json files cfg
            from kind info r)
  project_attributes-Reports kind info g imports (err e) h = tt
  project_attributes-Reports kind info g imports (ok (s, r)) h = h

  package_attributes-Reports :
      (kind : RuleKind) (info : TsProjectInfo) (g : Str) (imports : List ImportStatement)
      (r : Result Failure (Collected × Report))
      → IsReported g imports r
      → Reports g imports (
          package_attributes methods values ix ts pnpm_projects config_at has_package_json files cfg
            from kind info r)
  package_attributes-Reports kind info g imports (err e) h = tt
  package_attributes-Reports kind info g imports (ok (s, r)) h = h

  npm_attributes-Reports :
      (info : TsProjectInfo) (source : Option Label) (g : Str) (imports : List ImportStatement)
      (r : Result Failure (Collected × Report))
      → IsReported g imports r
      → Reports g imports (
          npm_attributes methods values ix ts pnpm_projects config_at has_package_json files cfg
            from info source r)
  npm_attributes-Reports info source g imports (err e) h = tt
  npm_attributes-Reports info source g imports (ok (s, r)) h = h

  resolve_library-Reports :
      (kind : RuleKind) (d : ImportData)
      → Reports (group_of d) (info_imports d) (
          resolve_library methods values ix ts pnpm_projects config_at has_package_json files cfg
            from kind d)
  unfolding resolve_library report
  resolve_library-Reports kind (ImportData.package_info info source) =
      package_attributes-Reports kind info info.group_name info.imports _
        (resolve_imports-IsReported info.group_name info.imports _ refl)
  resolve_library-Reports kind (ImportData.project_info info) =
      project_attributes-Reports kind info info.group_name info.imports _
        (resolve_imports-IsReported info.group_name info.imports _ refl)
  resolve_library-Reports kind ImportData.no_info = nothing_unknown

  resolve_npm_package-Reports :
      (d : ImportData)
      → Reports (group_of d) (package_imports d) (
          resolve_npm_package methods values ix ts pnpm_projects config_at has_package_json files
            cfg from d)
  unfolding resolve_npm_package report
  resolve_npm_package-Reports (ImportData.package_info info source) =
      npm_attributes-Reports info source info.group_name info.imports _
        (resolve_imports-IsReported info.group_name info.imports _ refl)
  resolve_npm_package-Reports (ImportData.project_info info) = nothing_unknown
  resolve_npm_package-Reports ImportData.no_info = nothing_unknown

  -- Where Resolve sets attributes of a rule, it reports exactly the imports that no directive names, that
  -- stand for nothing and are not optional, of those that a rule of its kind has: as an error of
  -- the run where the mode of validation is error, as a warning where it is warn, and not at all where it
  -- is off or there is no such import; a rule of another kind has nothing reported.
  pub resolve-Reports :
      (kind : RuleKind) (d : ImportData)
      → Reports (group_of d) (imports_of kind d) (
          resolve methods values ix ts pnpm_projects config_at has_package_json files cfg from kind
            d)
  unfolding resolve report
  resolve-Reports RuleKind.ts_project_kind d = resolve_library-Reports RuleKind.ts_project_kind d
  resolve-Reports RuleKind.js_library_kind d = resolve_library-Reports RuleKind.js_library_kind d
  resolve-Reports RuleKind.ts_config_kind d = resolve_library-Reports RuleKind.ts_config_kind d
  resolve-Reports RuleKind.ts_proto_library_kind d =
      resolve_library-Reports RuleKind.ts_proto_library_kind d
  resolve-Reports RuleKind.npm_package_kind d = resolve_npm_package-Reports d
  resolve-Reports RuleKind.other_kind d = nothing_unknown
