-- ===== src/JsConfig/Directives/Setters.antt =====
-- language/js/config.go: the setters of single settings that directives call.
use aspect_gazelle.Base.{
  Bool, true, false, List, [], ◌∷◌, ◌==◌, nat_eq, Str, slash, reverse, ◌&&◌, if◌then◌else◌,
}
use aspect_gazelle.GoPath.{clean, join, split}
use aspect_gazelle.JsConfig.{Settings, NpmPackageMode, PackageTargetKind, ProtoMode, ValidationMode}

-- The kinds of imports of assets: `import`, `jsx` and `url`.
pub data AssetKind : Type 0 where
  import_asset jsx_asset url_asset : AssetKind

abbrev pub trim_leading_slashes : Str → Str
trim_leading_slashes [] = []
trim_leading_slashes (c ∷ s) =
    let rest = trim_leading_slashes s in if c == slash then rest else c ∷ s

-- strings.Trim(s, "/")
unfoldable pub trim_both_slashes : Str → Str
trim_both_slashes s = reverse (trim_leading_slashes (reverse (trim_leading_slashes s)))

abbrev pub is_proto_enabled : ProtoMode → Bool
is_proto_enabled ProtoMode.proto_enabled = true
is_proto_enabled _ = false

abbrev pub is_proto_aspect : ProtoMode → Bool
is_proto_aspect ProtoMode.proto_aspect = true
is_proto_aspect _ = false

module _ {L : Type 0} where
  -- SetPnpmLockfile
  unfoldable pub set_pnpm_lockfile : Str → Settings L → Settings L
  unfolding trim_both_slashes
  set_pnpm_lockfile lock_path s =
      let cleaned = clean lock_path in
      record s {
        pnpm_lock_rel = s.rel;
        pnpm_lock_path = cleaned;
        pnpm_lock_dir = trim_both_slashes (split (join s.rel cleaned)).0;
      }

  abbrev pub collect_asset : AssetKind → Settings L → Settings L
  collect_asset import_asset s = record s { collect_asset_imports = true }
  collect_asset jsx_asset s = record s { collect_asset_jsx = true }
  collect_asset url_asset s = record s { collect_asset_url = true }

  unfoldable pub collect_assets : List AssetKind → Settings L → Settings L
  collect_assets [] s = s
  collect_assets (kind ∷ kinds) s = collect_assets kinds (collect_asset kind s)

  -- SetCollectAssetsFrom
  unfoldable pub set_collect_assets_from : List AssetKind → Settings L → Settings L
  unfolding collect_assets
  set_collect_assets_from kinds s = collect_assets kinds (record s {
    collect_asset_imports = false;
    collect_asset_jsx = false;
    collect_asset_url = false;
  })

  -- CollectAssetsFrom, for the three kinds
  unfoldable pub collects_assets_from : Settings L → AssetKind → Bool
  collects_assets_from s import_asset = s.collect_asset_imports
  collects_assets_from s jsx_asset = s.collect_asset_jsx
  collects_assets_from s url_asset = s.collect_asset_url

  -- SetTsProtoLibraryNamingConvention and SetNpmPackageNamingConvention
  unfoldable pub set_ts_proto_library_naming_convention : Str → Settings L → Settings L
  set_ts_proto_library_naming_convention convention s = record s {
    ts_proto_library_name = convention;
  }

  unfoldable pub set_npm_package_naming_convention : Str → Settings L → Settings L
  set_npm_package_naming_convention convention s = record s {
    npm_package_naming_convention = convention;
  }

  -- SetGenerationEnabled, SetTsConfigPackageDepsEnabled, SetProtoMode, SetNpmPackageGenerationMode
  -- and SetValidateImportStatements
  unfoldable pub set_generation_enabled : Bool → Settings L → Settings L
  set_generation_enabled b s = record s { generation_enabled = b }

  unfoldable pub set_ts_config_package_deps_enabled : Bool → Settings L → Settings L
  set_ts_config_package_deps_enabled b s = record s { ts_config_package_deps = b }

  unfoldable pub set_proto_mode : ProtoMode → Settings L → Settings L
  set_proto_mode mode s = record s { proto_mode = mode }

  unfoldable pub set_npm_package_generation_mode : NpmPackageMode → Settings L → Settings L
  set_npm_package_generation_mode mode s = record s { package_generation_enabled = mode }

  unfoldable pub set_validate_import_statements : ValidationMode → Settings L → Settings L
  set_validate_import_statements mode s = record s { validate_import_statements = mode }

  -- `config.packageTargetKind = …`
  unfoldable pub set_package_target_kind : PackageTargetKind → Settings L → Settings L
  set_package_target_kind kind s = record s { package_target_kind = kind }

  -- ProtoTsTargetGenerationEnabled and ProtoAspectEnabled
  unfoldable pub proto_ts_target_generation_enabled : Settings L → Bool
  proto_ts_target_generation_enabled s = s.generation_enabled && is_proto_enabled s.proto_mode

  unfoldable pub proto_aspect_enabled : Settings L → Bool
  proto_aspect_enabled s = s.generation_enabled && is_proto_aspect s.proto_mode
