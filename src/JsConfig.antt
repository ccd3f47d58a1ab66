-- ===== src/JsConfig.antt =====
-- language/js/config.go: the settings of a directory, and what a sub-directory inherits of them. The
-- type of labels is a parameter.
pub mod Groups
pub mod Naming
pub mod Imports
pub mod TsConfigs
pub mod Directives
pub mod Extends
mod Witnesses
use aspect_gazelle.Base.{
  Bool, true, false, Option, none, some, List, [], ◌∷◌, ◌++◌, Str, codes, map, not,
}
use aspect_gazelle.Base.Assoc.{Assoc}

pub data NpmPackageMode : Type 0 where
  npm_enabled npm_disabled npm_referenced : NpmPackageMode

pub data ProtoMode : Type 0 where
  proto_enabled proto_disabled proto_aspect : ProtoMode

pub data ValidationMode : Type 0 where
  validation_error validation_warn validation_off : ValidationMode

pub data PackageTargetKind : Type 0 where
  npm_package js_library : PackageTargetKind

-- TargetNameDirectoryVar, DefaultLibraryName, DefaultTestsName and the like.
abbrev pub dirname_var : Str
dirname_var = codes "{dirname}"

abbrev pub default_library_name : Str
default_library_name = dirname_var

abbrev pub default_tests_name : Str
default_tests_name = dirname_var ++ codes "_tests"

abbrev pub proto_name_var : Str
proto_name_var = codes "{proto_library}"

abbrev pub default_proto_library_name : Str
default_proto_library_name = proto_name_var ++ codes "_ts"

abbrev pub package_src_suffix : Str
package_src_suffix = codes "_lib"

-- targetTsConfig
pub record TargetTsConfig : Type 0 where
  pub enabled : Option Bool
  pub file_name : Str
  pub ignored_props : List Str

module _ (L : Type 0) where
  pub record TargetGroup : Type 0 where
    pub name : Str
    pub custom_sources : List Str
    pub inherited_sources : List Str
    pub custom_assets : List Str
    pub inherited_assets : List Str
    pub visibility : List L
    pub testonly : Bool

  -- The fields of JsGazelleConfig, less `parent`.
  pub record Settings : Type 0 where
    pub rel : Str
    pub generation_enabled : Bool
    pub package_target_kind : PackageTargetKind
    pub proto_mode : ProtoMode
    pub package_generation_enabled : NpmPackageMode
    pub pnpm_lock_rel : Str
    pub pnpm_lock_dir : Str
    pub pnpm_lock_path : Str
    pub group_ts_configs : Assoc Str TargetTsConfig
    pub ts_config_package_deps : Bool
    pub ignore_dependencies : List (Str → Bool)
    pub resolves : List ((Str → Bool) × L)
    pub validate_import_statements : ValidationMode
    pub targets : List TargetGroup
    pub collect_asset_imports : Bool
    pub collect_asset_jsx : Bool
    pub collect_asset_url : Bool
    pub npm_link_all_target_name : Str
    pub target_naming_overrides : Assoc Str Str
    pub npm_package_naming_convention : Str
    pub ts_proto_library_name : Str

  -- A configuration, and its parents from the nearest to the root.
  pub record JsGazelleConfig : Type 0 where
    pub own : Settings
    pub parents : List Settings

-- What both defaults glob for, in any directory below ${rootDir}.
abbrev pub default_source_globs : {L : Type 0} → List (TargetGroup L)
default_source_globs =
    record {
      name = default_library_name;
      custom_sources = [];
      inherited_sources = codes "${rootDir}/**/*.{ts,tsx,mts,cts}" ∷ [];
      custom_assets = [];
      inherited_assets = [];
      visibility = [];
      testonly = false;
    }
    ∷ record {
      name = default_tests_name;
      custom_sources = [];
      inherited_sources = codes "${rootDir}/**/*.{spec,test}.{ts,tsx,mts,cts}" ∷ [];
      custom_assets = [];
      inherited_assets = [];
      visibility = [];
      testonly = true;
    }
    ∷ []

abbrev pub default_ts_config : TargetTsConfig
default_ts_config = record {
  enabled = some true;
  file_name = codes "tsconfig.json";
  ignored_props = [];
}

-- newRootConfig
unfoldable pub new_root_config : {L : Type 0} → JsGazelleConfig L
new_root_config = record {
  own = record {
    rel = [];
    generation_enabled = true;
    package_target_kind = npm_package;
    proto_mode = proto_enabled;
    package_generation_enabled = npm_referenced;
    pnpm_lock_rel = [];
    pnpm_lock_dir = [];
    pnpm_lock_path = codes "pnpm-lock.yaml";
    group_ts_configs = ([], default_ts_config) ∷ [];
    ts_config_package_deps = false;
    ignore_dependencies = [];
    resolves = [];
    validate_import_statements = validation_error;
    targets = default_source_globs;
    collect_asset_imports = true;
    collect_asset_jsx = true;
    collect_asset_url = true;
    npm_link_all_target_name = codes "node_modules";
    target_naming_overrides = [];
    npm_package_naming_convention = dirname_var;
    ts_proto_library_name = default_proto_library_name;
  };
  parents = [];
}

abbrev pub nonempty_or : List Str → List Str → List Str
nonempty_or [] inherited = inherited
nonempty_or (x ∷ xs) inherited = x ∷ xs

module _ {L : Type 0} where
  -- TargetGroup.sourceGlobs and assetGlobs
  unfoldable pub source_globs : TargetGroup L → List Str
  source_globs g = nonempty_or g.custom_sources g.inherited_sources

  unfoldable pub asset_globs : TargetGroup L → List Str
  asset_globs g = nonempty_or g.custom_assets g.inherited_assets

  -- TargetGroup.newChild
  unfoldable pub child_group : TargetGroup L → TargetGroup L
  child_group g = record {
    name = g.name;
    custom_sources = [];
    inherited_sources = source_globs g;
    custom_assets = [];
    inherited_assets = asset_globs g;
    visibility = g.visibility;
    testonly = g.testonly;
  }

  -- JsGazelleConfig.NewChild
  unfoldable pub new_child : Str → JsGazelleConfig L → JsGazelleConfig L
  new_child child_path c = record {
    own = record c.own {
      rel = child_path;
      ignore_dependencies = [];
      resolves = [];
      targets = map child_group c.own.targets;
    };
    parents = c.own ∷ c.parents;
  }

  abbrev pub set_own : JsGazelleConfig L → Settings L → JsGazelleConfig L
  set_own c s = record c { own = s }
