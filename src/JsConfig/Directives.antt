-- ===== src/JsConfig/Directives.antt =====
-- language/js/configure.go: what each directive of a BUILD file changes in the settings, and the
-- settings of a directory. `matches` and `valid` are doublestar's, and `parse_label` is label.Parse.
pub mod Kinds
pub mod Setters
pub mod Kept
pub mod Grouped
use aspect_gazelle.Base.{
  Bool, true, false, Option, none, some, List, [], ◌∷◌, ◌++◌, ◌==◌, ◌||◌, ◌&&◌, not, nat_eq,
  list_eq, list_beq, Str, codes, cut, has_prefix, map, if◌then◌else◌,
}
use aspect_gazelle.Base.Split.{trim_space, split_at, fields, without_empty}
use aspect_gazelle.Base.Exec.{Result, ok, err, Done, bind_result}
use aspect_gazelle.JsConfig.{
  JsGazelleConfig, Settings, NpmPackageMode, PackageTargetKind, ProtoMode, ValidationMode,
  default_library_name, default_tests_name, new_root_config, new_child, set_own,
}
use aspect_gazelle.JsConfig.Groups.{
  GroupError, Step, set_visibility, add_target_glob, add_target_asset_glob,
}
use aspect_gazelle.JsConfig.Naming.{
  reverse_map_target_name, parse_group_glob, set_library_naming_convention,
  set_tests_naming_convention,
}
use aspect_gazelle.JsConfig.Imports.{add_ignored_import, add_resolve}
use aspect_gazelle.JsConfig.TsConfigs.{
  set_ts_config_generation_enabled, set_tsconfig_file, add_ignored_ts_config,
}
use aspect_gazelle.JsConfig.Directives.Kinds.{Directive, DirectiveKind, directive_kind}
use aspect_gazelle.JsConfig.Directives.Setters.{
  AssetKind, set_generation_enabled, set_proto_mode, set_npm_package_generation_mode,
  set_ts_config_package_deps_enabled, set_validate_import_statements, set_package_target_kind,
  set_pnpm_lockfile, set_collect_assets_from, set_npm_package_naming_convention,
  set_ts_proto_library_naming_convention,
}

-- What ends the reading: a misconfiguration, which is collected where errors are and else fatal, or
-- the end of the process.
pub data Stop : Type 0 where
  misconfigured : Str → Str → Stop
  bad_group : GroupError → Stop
  fatal : Str → Stop
  deprecated : Stop

-- common.ReadEnabled
unfoldable pub read_enabled : Directive → Result Stop Bool
read_enabled d =
    if trim_space d.value == codes "enabled"
    then ok true
    else if trim_space d.value == codes "disabled"
    then ok false
    else err (fatal d.value)

-- The group of a value and the rest of it, where the value has one.
abbrev pub group_and_value : {L : Type 0} → Settings L → Str → Str × Str
group_and_value s value = elim (cut value 32) [
  | none ↦ ([], value)
  | some (before, after) ↦ (reverse_map_target_name s before, after)
]

abbrev pub is_label : Str → Bool
is_label first = has_prefix first (codes ":") || has_prefix first (codes "//")

abbrev pub visibility_group : {L : Type 0} → Settings L → List Str → Str × List Str
visibility_group s [] = (default_library_name, [])
visibility_group s (first ∷ labels) =
    if is_label first
    then (default_library_name, first ∷ labels)
    else (reverse_map_target_name s first, labels)

abbrev pub proto_mode_of : Str → Result Stop ProtoMode
proto_mode_of value =
    if value == codes "enabled"
    then ok ProtoMode.proto_enabled
    else if value == codes "disabled"
    then ok ProtoMode.proto_disabled
    else if value == codes "aspect"
    then ok ProtoMode.proto_aspect
    else err (fatal value)

abbrev pub npm_package_mode_of : Directive → Result Stop NpmPackageMode
npm_package_mode_of d =
    if trim_space d.value == codes "referenced"
    then ok NpmPackageMode.npm_referenced
    else bind_result (read_enabled d)
        (λ b. ok (if b then NpmPackageMode.npm_enabled else NpmPackageMode.npm_disabled))

abbrev pub validation_of : Str → Str → Result Stop ValidationMode
validation_of key value =
    if value == codes "error"
    then ok ValidationMode.validation_error
    else if value == codes "warn"
    then ok ValidationMode.validation_warn
    else if value == codes "off"
    then ok ValidationMode.validation_off
    else err (misconfigured key value)

abbrev pub package_kind_of : Str → Str → Result Stop PackageTargetKind
package_kind_of key value =
    if value == codes "js_library"
    then ok PackageTargetKind.js_library
    else if value == codes "npm_package"
    then ok PackageTargetKind.npm_package
    else err (misconfigured key value)

abbrev pub asset_kind_of : Str → Option AssetKind
asset_kind_of part =
    if part == codes "import"
    then some AssetKind.import_asset
    else if part == codes "jsx"
    then some AssetKind.jsx_asset
    else if part == codes "url"
    then some AssetKind.url_asset
    else none

-- The kinds that the parts name, unless one of them names none.
unfoldable pub asset_kinds : Str → Str → List Str → Result Stop (List AssetKind)
asset_kinds key value [] = ok []
asset_kinds key value (part ∷ parts) = elim (asset_kind_of part) [
  | none ↦ err (misconfigured key value)
  | some kind ↦ bind_result (asset_kinds key value parts) (λ kinds. ok (kind ∷ kinds))
]

abbrev pub token_parts : List Str → List Str
token_parts [] = []
token_parts (token ∷ tokens) =
    without_empty (map trim_space (split_at b',' token)) ++ token_parts tokens

abbrev pub Outcome : Type 0 → Type 0
Outcome L = Result Stop Done × Settings L

module _ {L : Type 0} where
  -- A value that is read may be refused; then nothing is set.
  abbrev pub set_read : {A : Type 0} → Settings L → Result Stop A → (A → Settings L) → Outcome L
  set_read s (err e) set = (err e, s)
  set_read s (ok a) set = (ok tt, set a)

  abbrev pub done : Settings L → Outcome L
  done s = (ok tt, s)

  abbrev pub group_step : Step L → Outcome L
  group_step (ok u, s) = (ok tt, s)
  group_step (err e, s) = (err (bad_group e), s)

  abbrev pub then_read : Outcome L → (Settings L → Outcome L) → Outcome L
  then_read (ok u, s) rest = rest s
  then_read (err e, s) rest = (err e, s)

  abbrev pub configured : Option (JsGazelleConfig L) → Str → JsGazelleConfig L
  configured none rel = new_root_config
  configured (some parent) rel = new_child rel parent

module _ {L : Type 0} (parse_label : Str → Option L) where
  -- The directive's two parts: a glob and a label.
  unfoldable pub read_resolve : Str → List Str → Result Stop (Str × L)
  read_resolve value (glob ∷ target ∷ []) = elim (parse_label (trim_space target)) [
    | none ↦ err (misconfigured (codes "js_resolve") value)
    | some label ↦ ok (trim_space glob, label)
  ]
  read_resolve value _ = err (misconfigured (codes "js_resolve") value)

module _ {L : Type 0} (parse_label : Str → Option L) (matches : Str → Str → Bool)
    (valid : Str → Bool) where
  -- The cases of the switch in readDirectives; `value` is the directive's, trimmed.
  unfoldable pub apply_kind : DirectiveKind → Directive → Str → Settings L → Outcome L
  unfolding read_resolve asset_kinds
  apply_kind DirectiveKind.js d value s =
      set_read s (read_enabled d) (λ b. set_generation_enabled b s)
  apply_kind DirectiveKind.js_tsconfig d value s =
      let gv = group_and_value s value in
      done (set_ts_config_generation_enabled gv.0 (trim_space gv.1 == codes "enabled") s)
  apply_kind DirectiveKind.js_proto d value s =
      set_read s (proto_mode_of value) (λ mode. set_proto_mode mode s)
  apply_kind DirectiveKind.js_npm_package d value s =
      set_read s (npm_package_mode_of d) (λ mode. set_npm_package_generation_mode mode s)
  apply_kind DirectiveKind.js_visibility d value s =
      let gl = visibility_group s (without_empty (map trim_space (split_at 32 value))) in
      group_step (set_visibility parse_label gl.0 gl.1 s)
  apply_kind DirectiveKind.js_pnpm_lockfile d value s = done (set_pnpm_lockfile value s)
  apply_kind DirectiveKind.js_tsconfig_file d value s =
      let gv = group_and_value s value in done (set_tsconfig_file gv.0 (trim_space gv.1) s)
  apply_kind DirectiveKind.js_tsconfig_ignore d value s =
      let gv = group_and_value s value in done (add_ignored_ts_config gv.0 (trim_space gv.1) s)
  apply_kind DirectiveKind.js_tsconfig_package_deps d value s =
      set_read s (read_enabled d) (λ b. set_ts_config_package_deps_enabled b s)
  apply_kind DirectiveKind.js_ignore_imports d value s =
      done (add_ignored_import matches valid (trim_space value) s)
  apply_kind DirectiveKind.js_resolve d value s =
      set_read s (read_resolve parse_label d.value (split_at 32 value))
        (λ gl. add_resolve matches valid gl.0 gl.1 s)
  apply_kind DirectiveKind.js_validate_import_statements d value s =
      set_read s (validation_of d.key value) (λ mode. set_validate_import_statements mode s)
  apply_kind DirectiveKind.js_proto_naming_convention d value s =
      done (set_ts_proto_library_naming_convention value s)
  apply_kind DirectiveKind.js_project_naming_convention d value s =
      done (set_library_naming_convention value s)
  apply_kind DirectiveKind.js_tests_naming_convention d value s =
      done (set_tests_naming_convention value s)
  apply_kind DirectiveKind.js_npm_package_target_name d value s =
      done (set_npm_package_naming_convention value s)
  apply_kind DirectiveKind.js_package_rule_kind d value s =
      set_read s (package_kind_of d.key value) (λ kind. set_package_target_kind kind s)
  apply_kind DirectiveKind.js_files d value s =
      let gg = parse_group_glob s value default_library_name in
      group_step (add_target_glob matches valid gg.0 gg.1 false s)
  apply_kind DirectiveKind.js_test_files d value s =
      let gg = parse_group_glob s value default_tests_name in
      group_step (add_target_glob matches valid gg.0 gg.1 true s)
  apply_kind DirectiveKind.js_asset_files d value s =
      let gg = parse_group_glob s value default_library_name in
      group_step (add_target_asset_glob matches valid gg.0 gg.1 s)
  apply_kind DirectiveKind.js_assets d value s =
      if value == []
      then (err (misconfigured d.key d.value), s)
      else set_read s (asset_kinds d.key d.value (token_parts (fields value)))
          (λ kinds. set_collect_assets_from kinds s)
  apply_kind DirectiveKind.js_deprecated d value s = (err deprecated, s)

  -- A key of another language changes nothing.
  abbrev pub apply_known : Option DirectiveKind → Directive → Settings L → Outcome L
  apply_known none d s = done s
  apply_known (some kind) d s = apply_kind kind d (trim_space d.value) s

  unfoldable pub apply_directive : Directive → Settings L → Outcome L
  unfolding apply_kind directive_kind
  apply_directive d s = apply_known (directive_kind d.key) d s

  -- readDirectives, up to the first directive that stops it
  unfoldable pub read_directives : List Directive → Settings L → Outcome L
  read_directives [] s = done s
  read_directives (d ∷ ds) s = then_read (apply_directive d s) (read_directives ds)

  abbrev pub configure_file :
      JsGazelleConfig L → Option (List Directive) → Result Stop Done × JsGazelleConfig L
  configure_file c none = (ok tt, c)
  configure_file c (some directives) =
      let read = read_directives directives c.own in (read.0, set_own c read.1)

  -- Configure, less what it tells the tsconfig and pnpm parts: the directory's own settings. No
  -- parent is the root; no file has no directives.
  unfoldable pub configure :
      Option (JsGazelleConfig L)
      → Str
      → Option (List Directive)
      → Result Stop Done × JsGazelleConfig L
  unfolding read_directives new_child new_root_config
  configure parent rel file = configure_file (configured parent rel) file
