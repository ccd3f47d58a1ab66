-- ===== src/JsConfig/TsConfigs.antt =====
-- language/js/config.go: the tsconfig settings of the target groups.
use aspect_gazelle.Base.{
  Bool, true, false, Option, none, some, List, [], ◌∷◌, ◌++◌, ◌==◌, ◌||◌, nat_eq, list_eq, Str,
  codes, any, if◌then◌else◌,
}
use aspect_gazelle.Base.Assoc.{lookup, insert}
use aspect_gazelle.GoPath.{clean}
use aspect_gazelle.JsConfig.{Settings, TargetTsConfig}

abbrev pub no_ts_config : TargetTsConfig
no_ts_config = record { enabled = none; file_name = []; ignored_props = [] }

abbrev pub or_ts_config : Option TargetTsConfig → TargetTsConfig
or_ts_config none = no_ts_config
or_ts_config (some tc) = tc

abbrev pub enabled_in : Option TargetTsConfig → Option Bool
enabled_in none = none
enabled_in (some tc) = tc.enabled

abbrev pub enabled_or : Option Bool → Bool → Bool
enabled_or none b = b
enabled_or (some b) c = b

abbrev pub ignores : Str → Option TargetTsConfig → Bool
ignores prop none = false
ignores prop (some tc) = any (λ p. p == prop) tc.ignored_props

-- tsProjectReflectedConfigAttributes
abbrev pub reflected_attributes : List Str
reflected_attributes =
    codes "tsconfig"
    ∷ codes "allow_js"
    ∷ codes "composite"
    ∷ codes "declaration"
    ∷ codes "declaration_dir"
    ∷ codes "declaration_map"
    ∷ codes "emit_declaration_only"
    ∷ codes "source_map"
    ∷ codes "incremental"
    ∷ codes "ts_build_info_file"
    ∷ codes "no_emit"
    ∷ codes "resolve_json_module"
    ∷ codes "preserve_jsx"
    ∷ codes "out_dir"
    ∷ codes "root_dir"
    ∷ []

module _ {L : Type 0} where
  -- A change of what getOrCreateGroupTsConfig returns.
  unfoldable pub update_group_ts_config :
      Str → (TargetTsConfig → TargetTsConfig) → Settings L → Settings L
  update_group_ts_config group_name f s = record s {
    group_ts_configs =
        insert group_name (f (or_ts_config (lookup group_name s.group_ts_configs)))
          s.group_ts_configs;
  }

  -- SetTsConfigGenerationEnabled
  unfoldable pub set_ts_config_generation_enabled : Str → Bool → Settings L → Settings L
  set_ts_config_generation_enabled group_name b s =
      update_group_ts_config group_name (λ tc. record tc { enabled = some b }) s

  -- GetTsConfigGenerationEnabled
  unfoldable pub get_ts_config_generation_enabled : Settings L → Str → Bool
  get_ts_config_generation_enabled s group_name =
      enabled_or (enabled_in (lookup group_name s.group_ts_configs))
        (enabled_or (enabled_in (lookup [] s.group_ts_configs)) true)

  -- SetTsconfigFile
  unfoldable pub set_tsconfig_file : Str → Str → Settings L → Settings L
  set_tsconfig_file group_name file_name s =
      update_group_ts_config group_name (λ tc. record tc { file_name = clean file_name }) s

  -- AddIgnoredTsConfig; an attribute that is not known is only reported.
  unfoldable pub add_ignored_ts_config : Str → Str → Settings L → Settings L
  add_ignored_ts_config group_name prop_name s =
      if any (λ prop. prop == prop_name) reflected_attributes
      then update_group_ts_config group_name
          (λ tc. record tc { ignored_props = tc.ignored_props ++ prop_name ∷ [] }) s
      else s

  -- IsTsConfigIgnored
  unfoldable pub is_ts_config_ignored : Settings L → Str → Str → Bool
  is_ts_config_ignored s group_name prop_name =
      ignores prop_name (lookup [] s.group_ts_configs)
      || ignores prop_name (lookup group_name s.group_ts_configs)
