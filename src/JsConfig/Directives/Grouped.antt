-- ===== src/JsConfig/Directives/Grouped.antt =====
-- Every directive extends the settings, and so do the directives of a file.
use aspect_gazelle.Base.{
  ◌≡◌, refl, sym, Bool, true, false, Option, none, some, List, [], ◌∷◌, ◌==◌, any, any-append,
  append-nil, nat_eq, list_eq, Str, Bool-cases, Option-cases, inl, inr,
}
use aspect_gazelle.Base.Split.{fields, split_at}
use aspect_gazelle.Base.Exec.{Result, ok, err}
use aspect_gazelle.Glob.{GlobError, GlobExpr, parse_valid_expression}
use aspect_gazelle.JsConfig.{TargetGroup, Settings}
use aspect_gazelle.JsConfig.Groups.{
  Step, GroupError, find_target, get_source_target, update_target, add_target_glob, new_target,
  add_source, put_source, put_target_glob, same_flag, set_visibility, add_target_asset_glob,
  add_asset, put_asset_glob, parse_labels,
}
use aspect_gazelle.JsConfig.Imports.{add_ignored_import, add_resolve, ignore_parsed, resolve_parsed}
use aspect_gazelle.JsConfig.Directives.{
  Stop, Outcome, read_enabled, proto_mode_of, npm_package_mode_of, validation_of, package_kind_of,
  asset_kinds, read_resolve, token_parts, set_read, group_step, apply_kind, apply_known,
  apply_directive, then_read, read_directives,
}
use aspect_gazelle.JsConfig.TsConfigs.{
  set_ts_config_generation_enabled, update_group_ts_config, set_tsconfig_file,
  add_ignored_ts_config, reflected_attributes,
}
use aspect_gazelle.JsConfig.Naming.{set_library_naming_convention, set_tests_naming_convention}
use aspect_gazelle.JsConfig.Directives.Setters.{
  AssetKind, collect_asset, collect_assets, set_collect_assets_from, set_pnpm_lockfile,
  set_generation_enabled, set_proto_mode, set_npm_package_generation_mode,
  set_ts_config_package_deps_enabled, set_validate_import_statements, set_package_target_kind,
  set_npm_package_naming_convention, set_ts_proto_library_naming_convention,
}
use aspect_gazelle.JsConfig.Directives.Kinds.{Directive, DirectiveKind, directive_kind}
use aspect_gazelle.JsConfig.Directives.Kept.{
  Extends, Extends-same, Extends-refl, Extends-trans, flags, flags-update_target, flags-append,
  named-find_target, distinct_names-append_one,
}

module _ {L : Type 0} where
  put_source-Extends :
      (name glob : Str) (flag : Bool) (s : Settings L) (found : Option (TargetGroup L))
      → find_target name s.targets ≡ found
      → Extends s (put_source name glob flag s found).1
  put_source-Extends name glob flag s none missing = record {
    added = (name, flag) ∷ [];
    flags_added = flags-append s.targets (new_target name glob flag);
    stay_distinct = λ h. rw (flags-append s.targets (new_target name glob flag)) (
        distinct_names-append_one name flag (flags s.targets) h
          (named-find_target name s.targets missing));
    ignored = λ imp h. h;
  }
  put_source-Extends name glob flag s (some g) found =
      elim (Bool-cases (same_flag g.testonly flag)) [
        | inl same ↦ rw same (
            Extends-same s _
              (flags-update_target name (add_source glob) s.targets (λ t. refl) (λ t. refl)) refl)
        | inr differs ↦ rw differs (Extends-refl s)
      ]

  put_target_glob-Extends :
      (name : Str) (flag : Bool) (s : Settings L) (r : Result GroupError Str)
      → Extends s (put_target_glob name flag s r).1
  put_target_glob-Extends name flag s (err e) = Extends-refl s
  put_target_glob-Extends name flag s (ok glob) =
      put_source-Extends name glob flag s (find_target name s.targets) refl

  put_asset_glob-Extends :
      (name : Str) (s : Settings L) (r : Result GroupError Str)
      → Extends s (put_asset_glob name s r).1
  put_asset_glob-Extends name s (err e) = Extends-refl s
  put_asset_glob-Extends name s (ok []) = Extends-refl s
  put_asset_glob-Extends name s (ok (c ∷ glob)) = elim (Option-cases (get_source_target name s)) [
    | inl missing ↦ rw (put_asset_glob, missing) (Extends-refl s)
    | inr (g, found) ↦
        rw (put_asset_glob, found)
          (Extends-same s _
            (flags-update_target name (add_asset (c ∷ glob)) s.targets (λ t. refl) (λ t. refl))
            refl)
  ]

  set_visibility-Extends :
      (parse_label : Str → Option L) (name : Str) (labels : List Str) (s : Settings L)
      → Extends s (set_visibility parse_label name labels s).1
  unfolding set_visibility
  set_visibility-Extends parse_label name labels s =
      let set =
        λ (t : TargetGroup L). record t { visibility = (parse_labels parse_label labels).0 } in
      let step : Extends s (record s { targets = update_target name set s.targets }) =
        Extends-same s _ (flags-update_target name set s.targets (λ t. refl) (λ t. refl)) refl in
      elim (Option-cases (get_source_target name s)) [
        | inl missing ↦ rw (set_visibility, missing) (Extends-refl s)
        | inr (g, found) ↦ elim (Option-cases (parse_labels parse_label labels).1) [
          | inl good ↦ rw (set_visibility, found, good) step
          | inr (bad, e) ↦ rw (set_visibility, found, e) step
        ]
      ]

  ignore_parsed-Extends :
      (s : Settings L) (r : Result GlobError GlobExpr) → Extends s (ignore_parsed s r)
  ignore_parsed-Extends s (err e) = Extends-refl s
  ignore_parsed-Extends s (ok glob) = record {
    added = [];
    flags_added = sym (append-nil (flags s.targets));
    stay_distinct = λ h. h;
    ignored =
        λ imp h. rw (any-append (λ (g : Str → Bool). g imp) s.ignore_dependencies (glob ∷ []), h);
  }

  resolve_parsed-Extends :
      (label : L) (s : Settings L) (r : Result GlobError GlobExpr)
      → Extends s (resolve_parsed label s r)
  resolve_parsed-Extends label s (err e) = Extends-refl s
  resolve_parsed-Extends label s (ok glob) = Extends-same s _ refl refl

  -- A group's step and its outcome have the same settings.
  group_step-Extends : (s : Settings L) (r : Step L) → Extends s r.1 → Extends s (group_step r).1
  group_step-Extends s (ok u, t) h = h
  group_step-Extends s (err e, t) h = h

  set_read-Extends :
      {A : Type 0} (s : Settings L) (r : Result Stop A) (set : A → Settings L)
      → ((a : A) → Extends s (set a))
      → Extends s (set_read s r set).1
  set_read-Extends s (err e) set h = Extends-refl s
  set_read-Extends s (ok a) set h = h a

  then_read-Extends :
      (s : Settings L) (r : Outcome L) (rest : Settings L → Outcome L)
      → Extends s r.1
      → ((t : Settings L) → Extends t (rest t).1)
      → Extends s (then_read r rest).1
  then_read-Extends s (ok u, t) rest h next = Extends-trans s t _ h (next t)
  then_read-Extends s (err e, t) rest h next = h

module _ {L : Type 0} where
  add_ignored_ts_config-Extends :
      (group prop : Str) (s : Settings L) → Extends s (add_ignored_ts_config group prop s)
  unfolding add_ignored_ts_config update_group_ts_config
  add_ignored_ts_config-Extends group prop s =
      elim (Bool-cases (any (λ p. p == prop) reflected_attributes)) [
        | inl known ↦ rw (add_ignored_ts_config, known) (Extends-same s _ refl refl)
        | inr unknown ↦ rw (add_ignored_ts_config, unknown) (Extends-refl s)
      ]

  collect_asset-Extends : (kind : AssetKind) (s : Settings L) → Extends s (collect_asset kind s)
  collect_asset-Extends AssetKind.import_asset s = Extends-same s _ refl refl
  collect_asset-Extends AssetKind.jsx_asset s = Extends-same s _ refl refl
  collect_asset-Extends AssetKind.url_asset s = Extends-same s _ refl refl

  collect_assets-Extends :
      (kinds : List AssetKind) (s : Settings L) → Extends s (collect_assets kinds s)
  unfolding collect_assets
  collect_assets-Extends [] s = Extends-refl s
  collect_assets-Extends (kind ∷ kinds) s =
      Extends-trans s (collect_asset kind s) _ (collect_asset-Extends kind s)
        (collect_assets-Extends kinds (collect_asset kind s))

  set_collect_assets_from-Extends :
      (kinds : List AssetKind) (s : Settings L) → Extends s (set_collect_assets_from kinds s)
  unfolding set_collect_assets_from
  set_collect_assets_from-Extends kinds s =
      let reset = record s {
        collect_asset_imports = false;
        collect_asset_jsx = false;
        collect_asset_url = false;
      } in
      Extends-trans s reset _ (Extends-same s reset refl refl) (collect_assets-Extends kinds reset)

module _ {L : Type 0} (parse_label : Str → Option L) (matches : Str → Str → Bool)
    (valid : Str → Bool) where
  apply_kind-Extends :
      (kind : DirectiveKind) (d : Directive) (value : Str) (s : Settings L)
      → Extends s (apply_kind parse_label matches valid kind d value s).1
  unfolding apply_kind set_generation_enabled set_proto_mode set_npm_package_generation_mode
      set_ts_config_package_deps_enabled set_validate_import_statements set_package_target_kind
      set_ts_config_generation_enabled update_group_ts_config set_tsconfig_file set_pnpm_lockfile
      add_ignored_import add_resolve set_ts_proto_library_naming_convention
      set_library_naming_convention set_tests_naming_convention set_npm_package_naming_convention
      add_target_glob add_target_asset_glob
  apply_kind-Extends DirectiveKind.js d value s =
      set_read-Extends s (read_enabled d) (λ b. set_generation_enabled b s)
        (λ b. Extends-same s (set_generation_enabled b s) refl refl)
  apply_kind-Extends DirectiveKind.js_tsconfig d value s = Extends-same s _ refl refl
  apply_kind-Extends DirectiveKind.js_proto d value s =
      set_read-Extends s (proto_mode_of value) (λ b. set_proto_mode b s)
        (λ b. Extends-same s (set_proto_mode b s) refl refl)
  apply_kind-Extends DirectiveKind.js_npm_package d value s =
      set_read-Extends s (npm_package_mode_of d) (λ b. set_npm_package_generation_mode b s)
        (λ b. Extends-same s (set_npm_package_generation_mode b s) refl refl)
  apply_kind-Extends DirectiveKind.js_visibility d value s =
      group_step-Extends s _ (set_visibility-Extends parse_label _ _ s)
  apply_kind-Extends DirectiveKind.js_pnpm_lockfile d value s = Extends-same s _ refl refl
  apply_kind-Extends DirectiveKind.js_tsconfig_file d value s = Extends-same s _ refl refl
  apply_kind-Extends DirectiveKind.js_tsconfig_ignore d value s =
      add_ignored_ts_config-Extends _ _ s
  apply_kind-Extends DirectiveKind.js_tsconfig_package_deps d value s =
      set_read-Extends s (read_enabled d) (λ b. set_ts_config_package_deps_enabled b s)
        (λ b. Extends-same s (set_ts_config_package_deps_enabled b s) refl refl)
  apply_kind-Extends DirectiveKind.js_ignore_imports d value s = ignore_parsed-Extends s _
  apply_kind-Extends DirectiveKind.js_resolve d value s =
      set_read-Extends s (read_resolve parse_label d.value (split_at 32 value))
        (λ gl. add_resolve matches valid gl.0 gl.1 s)
        (λ gl. resolve_parsed-Extends gl.1 s (parse_valid_expression matches valid gl.0))
  apply_kind-Extends DirectiveKind.js_validate_import_statements d value s =
      set_read-Extends s (validation_of d.key value) (λ b. set_validate_import_statements b s)
        (λ b. Extends-same s (set_validate_import_statements b s) refl refl)
  apply_kind-Extends DirectiveKind.js_proto_naming_convention d value s = Extends-same s _ refl refl
  apply_kind-Extends DirectiveKind.js_project_naming_convention d value s =
      Extends-same s _ refl refl
  apply_kind-Extends DirectiveKind.js_tests_naming_convention d value s = Extends-same s _ refl refl
  apply_kind-Extends DirectiveKind.js_npm_package_target_name d value s = Extends-same s _ refl refl
  apply_kind-Extends DirectiveKind.js_package_rule_kind d value s =
      set_read-Extends s (package_kind_of d.key value) (λ b. set_package_target_kind b s)
        (λ b. Extends-same s (set_package_target_kind b s) refl refl)
  apply_kind-Extends DirectiveKind.js_files d value s =
      group_step-Extends s _ (put_target_glob-Extends _ false s _)
  apply_kind-Extends DirectiveKind.js_test_files d value s =
      group_step-Extends s _ (put_target_glob-Extends _ true s _)
  apply_kind-Extends DirectiveKind.js_asset_files d value s =
      group_step-Extends s _ (put_asset_glob-Extends _ s _)
  apply_kind-Extends DirectiveKind.js_assets d value s = elim (Bool-cases (value == [])) [
    | inl empty ↦ rw (apply_kind, empty) (Extends-refl s)
    | inr some_value ↦
        rw (apply_kind, some_value)
          (set_read-Extends s (asset_kinds d.key d.value (token_parts (fields value)))
            (λ kinds. set_collect_assets_from kinds s)
            (λ kinds. set_collect_assets_from-Extends kinds s))
  ]
  apply_kind-Extends DirectiveKind.js_deprecated d value s = Extends-refl s

  pub apply_known-Extends :
      (kind : Option DirectiveKind) (d : Directive) (s : Settings L)
      → Extends s (apply_known parse_label matches valid kind d s).1
  apply_known-Extends none d s = Extends-refl s
  apply_known-Extends (some kind) d s = apply_kind-Extends kind d _ s

  pub read_directives-Extends :
      (ds : List Directive) (s : Settings L)
      → Extends s (read_directives parse_label matches valid ds s).1
  unfolding read_directives apply_directive
  read_directives-Extends [] s = Extends-refl s
  read_directives-Extends (d ∷ ds) s =
      then_read-Extends s _ _ (apply_known-Extends (directive_kind d.key) d s)
        (read_directives-Extends ds)
