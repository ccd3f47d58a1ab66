-- ===== src/JsConfig/Directives/Kinds.antt =====
-- language/js/config.go: the keys of the directives of this language.
use aspect_gazelle.Base.{Option, [], ◌∷◌, Str, codes, list_eq, nat_eq}
use aspect_gazelle.Base.Assoc.{Assoc, lookup}

-- A directive of gazelle: the key and the value of a comment `# gazelle:key value`.
pub record Directive : Type 0 where
  pub key : Str
  pub value : Str

-- The cases of readDirectives; the three keys that are deprecated share one.
pub data DirectiveKind : Type 0 where
  js js_proto js_tsconfig js_npm_package js_visibility js_pnpm_lockfile : DirectiveKind
  js_tsconfig_file js_tsconfig_ignore js_tsconfig_package_deps : DirectiveKind
  js_ignore_imports js_resolve js_validate_import_statements : DirectiveKind
  js_project_naming_convention js_npm_package_target_name : DirectiveKind
  js_proto_naming_convention js_tests_naming_convention js_package_rule_kind : DirectiveKind
  js_files js_test_files js_assets js_asset_files js_deprecated : DirectiveKind

abbrev pub directive_keys : Assoc Str DirectiveKind
directive_keys =
    (codes "js", js)
    ∷ (codes "js_proto", js_proto)
    ∷ (codes "js_tsconfig", js_tsconfig)
    ∷ (codes "js_npm_package", js_npm_package)
    ∷ (codes "js_visibility", js_visibility)
    ∷ (codes "js_pnpm_lockfile", js_pnpm_lockfile)
    ∷ (codes "js_tsconfig_file", js_tsconfig_file)
    ∷ (codes "js_tsconfig_ignore", js_tsconfig_ignore)
    ∷ (codes "js_tsconfig_package_deps", js_tsconfig_package_deps)
    ∷ (codes "js_ignore_imports", js_ignore_imports)
    ∷ (codes "js_resolve", js_resolve)
    ∷ (codes "js_validate_import_statements", js_validate_import_statements)
    ∷ (codes "js_project_naming_convention", js_project_naming_convention)
    ∷ (codes "js_npm_package_target_name", js_npm_package_target_name)
    ∷ (codes "js_proto_naming_convention", js_proto_naming_convention)
    ∷ (codes "js_tests_naming_convention", js_tests_naming_convention)
    ∷ (codes "js_package_rule_kind", js_package_rule_kind)
    ∷ (codes "js_files", js_files)
    ∷ (codes "js_test_files", js_test_files)
    ∷ (codes "js_assets", js_assets)
    ∷ (codes "js_asset_files", js_asset_files)
    ∷ (codes "js_custom_files", js_deprecated)
    ∷ (codes "js_custom_test_files", js_deprecated)
    ∷ (codes "js_generation_mode", js_deprecated)
    ∷ []

unfoldable pub directive_kind : Str → Option DirectiveKind
directive_kind key = lookup key directive_keys
