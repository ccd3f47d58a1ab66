-- ===== src/JsConfig/Naming.antt =====
-- language/js/config.go: the names of the generated targets.
pub mod Rendered
use aspect_gazelle.Base.{
  Bool, true, false, Option, none, some, List, [], ◌∷◌, ◌++◌, ◌==◌, nat_eq, list_eq, list_beq, Str,
  codes, cut, trim_suffix, slash, not, ◌&&◌, if◌then◌else◌,
}
use aspect_gazelle.Base.Assoc.{Assoc, lookup, insert}
use aspect_gazelle.Base.Split.{replace_all, trim_space}
use aspect_gazelle.GoPath.{base}
use aspect_gazelle.JsConfig.{
  Settings, dirname_var, default_library_name, default_tests_name, proto_name_var,
  package_src_suffix,
}

-- renderTargetName
unfoldable pub render_target_name : Str → Str → Str
render_target_name base_name package_name = replace_all base_name dirname_var package_name

abbrev pub find_override : Str → Assoc Str Str → Str
find_override mapped_name [] = mapped_name
find_override mapped_name ((name, override) ∷ overrides) =
    if override == mapped_name then name else find_override mapped_name overrides

abbrev pub unless_empty_text : Option Str → Str → Str
unless_empty_text none name = name
unless_empty_text (some []) name = name
unless_empty_text (some (c ∷ s)) name = c ∷ s

-- RenderTsConfigName
unfoldable pub render_ts_config_name : Str → Str
render_ts_config_name ts_config_name =
    replace_all (trim_suffix (base ts_config_name) (codes ".json")) (codes ".") (codes "_")

module _ {L : Type 0} where
  -- SetLibraryNamingConvention and SetTestsNamingLibraryConvention
  unfoldable pub set_library_naming_convention : Str → Settings L → Settings L
  set_library_naming_convention convention s = record s {
    target_naming_overrides = insert default_library_name convention s.target_naming_overrides;
  }

  unfoldable pub set_tests_naming_convention : Str → Settings L → Settings L
  set_tests_naming_convention convention s = record s {
    target_naming_overrides = insert default_tests_name convention s.target_naming_overrides;
  }

  -- ReverseMapTargetName; the map is read in the order of its entries.
  unfoldable pub reverse_map_target_name : Settings L → Str → Str
  reverse_map_target_name s mapped_name = find_override mapped_name s.target_naming_overrides

  -- parseGroupGlob
  unfoldable pub parse_group_glob : Settings L → Str → Str → Str × Str
  parse_group_glob s value default_group = elim (cut value 32) [
    | none ↦ (default_group, value)
    | some (before, after) ↦ (reverse_map_target_name s before, trim_space after)
  ]

  -- MapTargetName
  unfoldable pub map_target_name : Settings L → Str → Str
  map_target_name s name = unless_empty_text (lookup name s.target_naming_overrides) name

  -- RenderNpmPackageTargetName
  unfoldable pub render_npm_package_target_name : Settings L → Str → Str
  render_npm_package_target_name s package_name =
      render_target_name s.npm_package_naming_convention package_name

  -- RenderTsProtoLibraryName
  unfoldable pub render_ts_proto_library_name : Settings L → Str → Str
  render_ts_proto_library_name s proto_library_name =
      replace_all s.ts_proto_library_name proto_name_var proto_library_name

  -- RenderSourceTargetName
  unfoldable pub render_source_target_name : Settings L → Str → Str → Bool → Str
  render_source_target_name s group_name package_name has_package_target =
      let mapped = map_target_name s group_name in
      let rule_name = render_target_name mapped package_name in
      if has_package_target
        && group_name == default_library_name
        && mapped == default_library_name
        && rule_name == render_npm_package_target_name s package_name
      then rule_name ++ package_src_suffix
      else rule_name
