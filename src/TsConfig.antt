-- ===== src/TsConfig.antt =====
-- language/js/typescript/tsconfig.go: the options of a tsconfig, and mergeBaseConfigs, which makes
-- one base of several that a tsconfig extends. A pointer to an option is an Option.
pub mod Merge
pub mod Json
pub mod Load
pub mod Terminates
pub mod Expand
pub mod Workspace
mod Witnesses
use aspect_gazelle.Base.{
  Bool, true, false, Option, none, some, List, [], ◌∷◌, ◌||◌, Str, codes, map, if◌then◌else◌,
}
use aspect_gazelle.Base.Assoc.{Assoc}
use aspect_gazelle.GoPath.{join, rel}

-- TsConfigJsxType
pub data JsxType : Type 0 where
  jsx_none jsx_preserve jsx_react jsx_react_jsx jsx_react_jsx_dev jsx_react_native : JsxType

-- TsConfigPaths
pub record Paths : Type 0 where
  pub rel : Str
  pub map : Assoc Str (List Str)

abbrev pub default_config_paths : Paths
default_config_paths = record { rel = codes "."; map = [] }

-- tsConfigExplicit
pub record Explicit : Type 0 where
  pub root_dir : Bool
  pub out_dir : Bool
  pub base_url : Bool
  pub ts_build_info_file : Bool
  pub import_helpers : Bool
  pub paths : Bool

pub record TsConfig : Type 0 where
  pub config_dir : Str
  pub config_name : Str
  pub allow_js : Option Bool
  pub resolve_json_module : Option Bool
  pub composite : Option Bool
  pub declaration : Option Bool
  pub declaration_dir : Option Str
  pub declaration_map : Option Bool
  pub declaration_only : Option Bool
  pub incremental : Option Bool
  pub ts_build_info_file : Str
  pub source_map : Option Bool
  pub no_emit : Option Bool
  pub out_dir : Str
  pub root_dir : Str
  pub base_url : Str
  pub virtual_root_dirs : Option (List Str)
  pub paths : Paths
  pub import_helpers : Bool
  pub isolated_declarations : Option Bool
  pub jsx : JsxType
  pub types : List Str
  pub extends : List Str
  pub references : List Str
  pub set : Explicit

-- `merged.F = right.F; if merged.F == nil { merged.F = left.F }`
abbrev pub or_else : {A : Type 0} → Option A → Option A → Option A
or_else none left = left
or_else (some x) left = some x

abbrev pub list_or_nil : {A : Type 0} → Option (List A) → List A
list_or_nil none = []
list_or_nil (some xs) = xs

abbrev pub jsx_or_else : JsxType → JsxType → JsxType
jsx_or_else jsx_none left = left
jsx_or_else right left = right

-- The path from the current directory to that of a base, `.` where there is none.
unfoldable pub rel_or_dot : Str → Str → Str
unfolding rel
rel_or_dot current dir = elim (rel current dir) [ none ↦ codes "." | some r ↦ r ]

abbrev pub rebase : Str → Paths → Paths
rebase r p = record { rel = join r p.rel; map = p.map }

abbrev pub rebase_dirs : Str → Option (List Str) → Option (List Str)
rebase_dirs r none = none
rebase_dirs r (some dirs) = some (map (λ (d : Str). join r d) dirs)

-- mergeBaseConfigs: right overrides left.
unfoldable pub merge_base_configs : TsConfig → TsConfig → Str → TsConfig
merge_base_configs left right current =
    let left_rel = rel_or_dot current left.config_dir in
    let right_rel = rel_or_dot current right.config_dir in
    let s = right.set in
    record {
      config_dir = current;
      config_name = left.config_name;
      allow_js = or_else right.allow_js left.allow_js;
      composite = or_else right.composite left.composite;
      declaration = or_else right.declaration left.declaration;
      declaration_map = or_else right.declaration_map left.declaration_map;
      declaration_only = or_else right.declaration_only left.declaration_only;
      incremental = or_else right.incremental left.incremental;
      isolated_declarations = or_else right.isolated_declarations left.isolated_declarations;
      no_emit = or_else right.no_emit left.no_emit;
      source_map = or_else right.source_map left.source_map;
      resolve_json_module = or_else right.resolve_json_module left.resolve_json_module;
      declaration_dir = or_else right.declaration_dir left.declaration_dir;
      out_dir = if s.out_dir then right.out_dir else left.out_dir;
      root_dir = if s.root_dir then right.root_dir else left.root_dir;
      base_url = if s.base_url then right.base_url else left.base_url;
      ts_build_info_file =
          if s.ts_build_info_file then right.ts_build_info_file else left.ts_build_info_file;
      paths =
          if s.paths
          then rebase right_rel right.paths
          else if left.set.paths
          then rebase left_rel left.paths
          else default_config_paths;
      virtual_root_dirs =
          or_else (rebase_dirs right_rel right.virtual_root_dirs)
            (rebase_dirs left_rel left.virtual_root_dirs);
      import_helpers = if s.import_helpers then right.import_helpers else left.import_helpers;
      jsx = jsx_or_else right.jsx left.jsx;
      types = [];
      extends = [];
      references = [];
      set = record {
        root_dir = if s.root_dir then true else left.set.root_dir;
        out_dir = if s.out_dir then true else left.set.out_dir;
        base_url = if s.base_url then true else left.set.base_url;
        ts_build_info_file = if s.ts_build_info_file then true else left.set.ts_build_info_file;
        import_helpers = if s.import_helpers then true else left.set.import_helpers;
        paths = if s.paths then true else left.set.paths;
      };
    }

-- The loop over `bases` in parseTsConfigJSON, from the first of them.
unfoldable pub merge_bases : TsConfig → List TsConfig → Str → TsConfig
merge_bases base [] current = base
merge_bases base (next ∷ bases) current =
    merge_bases (merge_base_configs base next current) bases current
