-- ===== src/TsConfig/Json.antt =====
-- language/js/typescript/tsconfig.go: the fields of a tsconfig file, as jsonc gives them, and the
-- configuration that parseTsConfigJSON makes of them and of the base that the file extends. A `jsx`
-- that is none of the named kinds is not modelled.
use aspect_gazelle.Base.{
  Bool, true, false, Option, none, some, List, [], ◌∷◌, nat_eq, list_eq, Str, codes, map,
  if◌then◌else◌,
}
use aspect_gazelle.Base.Assoc.{Assoc}
use aspect_gazelle.Base.Split.{replace_all}
use aspect_gazelle.GoPath.{clean, dir, base, join}
use aspect_gazelle.TsConfig.{
  TsConfig, JsxType, default_config_paths, list_or_nil, rebase, rebase_dirs, rel_or_dot,
}

-- tsCompilerOptionsJSON
pub record CompilerOptions : Type 0 where
  pub allow_js : Option Bool
  pub composite : Option Bool
  pub declaration : Option Bool
  pub declaration_dir : Option Str
  pub declaration_map : Option Bool
  pub declaration_only : Option Bool
  pub incremental : Option Bool
  pub isolated_declarations : Option Bool
  pub ts_build_info_file : Option Str
  pub source_map : Option Bool
  pub resolve_json_module : Option Bool
  pub no_emit : Option Bool
  pub out_dir : Option Str
  pub root_dir : Option Str
  pub root_dirs : Option (List Str)
  pub base_url : Option Str
  pub paths : Option (Assoc Str (List Str))
  pub types : Option (List Str)
  pub jsx : Option JsxType
  pub import_helpers : Option Bool

-- tsConfigJSON; a reference is its path.
pub record TsConfigJson : Type 0 where
  pub extends : List Str
  pub compiler_options : CompilerOptions
  pub references : Option (List Str)

-- expandConfigDirPath and expandConfigDirFile
unfoldable pub expand_config_dir_path : Str → Str
expand_config_dir_path value = clean (replace_all value (codes "${configDir}") (codes "."))

unfoldable pub expand_config_dir_file : Str → Str
unfolding expand_config_dir_path
expand_config_dir_file [] = []
expand_config_dir_file (c ∷ value) = expand_config_dir_path (c ∷ value)

abbrev pub is_set : {A : Type 0} → Option A → Bool
is_set none = false
is_set (some a) = true

-- `if option != nil { … } else if baseConfig != nil { … } else { … }`
abbrev pub option_or :
    {A B : Type 0} → Option A → (A → B) → Option TsConfig → (TsConfig → B) → B → B
option_or (some a) own base_config inherited default = own a
option_or none own none inherited default = default
option_or none own (some b) inherited default = inherited b

abbrev pub inherited_option :
    {A : Type 0} → Option A → Option TsConfig → (TsConfig → Option A) → Option A
inherited_option own base_config field = option_or own (λ a. some a) base_config field none

abbrev pub base_rel : Str → Option TsConfig → Str
base_rel config_dir none = codes "."
base_rel config_dir (some b) = rel_or_dot config_dir b.config_dir

-- The base's baseUrl, if it is set, from the directory of this file.
abbrev pub rebased_base_url : Str → TsConfig → Str
rebased_base_url r b = if b.set.base_url then join r b.base_url else codes "."

abbrev pub reference_paths : Str → List Str → List Str
reference_paths config_dir [] = []
reference_paths config_dir ([] ∷ paths) = reference_paths config_dir paths
reference_paths config_dir ((c ∷ p) ∷ paths) =
    join config_dir (c ∷ p) ∷ reference_paths config_dir paths

-- The end of parseTsConfigJSON: the configuration of the file, given its base and what it extends.
unfoldable pub config_of : Str → TsConfigJson → List Str → Option TsConfig → TsConfig
unfolding expand_config_dir_path expand_config_dir_file
config_of tsconfig c extends base_config =
    let o = c.compiler_options in
    let config_dir = dir tsconfig in
    let r = base_rel config_dir base_config in
    let base_url =
      option_or o.base_url expand_config_dir_path base_config (rebased_base_url r) (codes ".") in
    record {
      config_dir = config_dir;
      config_name = base tsconfig;
      allow_js = inherited_option o.allow_js base_config (λ b. b.allow_js);
      composite = inherited_option o.composite base_config (λ b. b.composite);
      declaration = inherited_option o.declaration base_config (λ b. b.declaration);
      declaration_dir =
          option_or o.declaration_dir (λ s. some (expand_config_dir_path s)) base_config
            (λ b. b.declaration_dir) none;
      declaration_map = inherited_option o.declaration_map base_config (λ b. b.declaration_map);
      declaration_only = inherited_option o.declaration_only base_config (λ b. b.declaration_only);
      incremental = inherited_option o.incremental base_config (λ b. b.incremental);
      isolated_declarations =
          inherited_option o.isolated_declarations base_config (λ b. b.isolated_declarations);
      ts_build_info_file =
          option_or o.ts_build_info_file expand_config_dir_file base_config
            (λ b. b.ts_build_info_file) [];
      source_map = inherited_option o.source_map base_config (λ b. b.source_map);
      resolve_json_module =
          inherited_option o.resolve_json_module base_config (λ b. b.resolve_json_module);
      no_emit = inherited_option o.no_emit base_config (λ b. b.no_emit);
      out_dir = option_or o.out_dir expand_config_dir_path base_config (λ b. b.out_dir) (codes ".");
      root_dir =
          option_or o.root_dir expand_config_dir_path base_config (λ b. b.root_dir) (codes ".");
      base_url = base_url;
      paths =
          option_or o.paths (λ m. record { rel = base_url; map = m }) base_config
            (λ b. rebase r b.paths) default_config_paths;
      virtual_root_dirs =
          option_or o.root_dirs (λ dirs. some (map clean dirs)) base_config
            (λ b. rebase_dirs r b.virtual_root_dirs) none;
      import_helpers =
          option_or o.import_helpers (λ b. b) base_config (λ b. b.import_helpers) false;
      jsx = option_or o.jsx (λ j. j) base_config (λ b. b.jsx) JsxType.jsx_none;
      types = list_or_nil o.types;
      extends = extends;
      references = reference_paths config_dir (list_or_nil c.references);
      set = record {
        root_dir = option_or o.root_dir (λ s. true) base_config (λ b. b.set.root_dir) false;
        out_dir = option_or o.out_dir (λ s. true) base_config (λ b. b.set.out_dir) false;
        base_url = option_or o.base_url (λ s. true) base_config (λ b. b.set.base_url) false;
        ts_build_info_file =
            option_or o.ts_build_info_file (λ s. true) base_config (λ b. b.set.ts_build_info_file)
              false;
        import_helpers =
            option_or o.import_helpers (λ b. true) base_config (λ b. b.set.import_helpers) false;
        paths = option_or o.paths (λ m. true) base_config (λ b. b.set.paths) false;
      };
    }
