-- ===== src/TsConfig/Witnesses.antt =====
-- The theorems on tsconfigs: on two bases, of which the last sets an explicit default, on two files
-- that extend one another, and on a map of paths whose keys match one import.
use aspect_gazelle.Base.{
  ◌≡◌, ◌≢◌, refl, true, false, none, some, List, [], ◌∷◌, ◌++◌, ◌==◌, Option, slash, All,
  contains_byte, nat_eq, list_eq, list_beq, list_beq_iff, Str, codes, In, here, there, has_prefix,
  has_suffix, cut, Bool-cases, true-false, ap, ◌∙◌, inl, inr, if◌then◌else◌, arith,
}
use aspect_gazelle.Base.Assoc.{Assoc, lookup}
use aspect_gazelle.TsConfig.Workspace.Found.{IsDirName}
use aspect_gazelle.TsConfig.Workspace.{
  WorkspacePath, ConfigFiles, file_of_group, config_of_pair, expand_in, expand_import_paths,
}
use aspect_gazelle.TsConfig.Workspace.Found.{nearest_config, expand_import_paths-nearest}
use aspect_gazelle.TsConfig.{
  TsConfig, Explicit, JsxType, default_config_paths, merge_base_configs, merge_bases,
}
use aspect_gazelle.TsConfig.Merge.{Setting, text, setting, setting-merge_bases}
use aspect_gazelle.TsConfig.Json.{CompilerOptions, TsConfigJson}
use aspect_gazelle.TsConfig.Load.{Contents, missing, tsconfig_json, exhausted, parse_file}
use aspect_gazelle.TsConfig.Terminates.{parse_file-ends}
use aspect_gazelle.TsConfig.Expand.{possible_matches, expand_paths}
use aspect_gazelle.TsConfig.Expand.Matches.{is_none, is_none-expand_paths}
use aspect_gazelle.TsConfig.Expand.Sorted.{IsKeyedOnce}
use aspect_gazelle.TsConfig.Expand.AnyOrder.{Within, with_paths, expand_paths-any_order}

abbrev nothing_set : Explicit
nothing_set = record {
  root_dir = false;
  out_dir = false;
  base_url = false;
  ts_build_info_file = false;
  import_helpers = false;
  paths = false;
}

abbrev plain_config : Str → TsConfig
plain_config dir = record {
  config_dir = dir;
  config_name = codes "tsconfig.json";
  allow_js = none;
  resolve_json_module = none;
  composite = none;
  declaration = none;
  declaration_dir = none;
  declaration_map = none;
  declaration_only = none;
  incremental = none;
  ts_build_info_file = [];
  source_map = none;
  no_emit = none;
  out_dir = codes ".";
  root_dir = codes ".";
  base_url = codes ".";
  virtual_root_dirs = none;
  paths = default_config_paths;
  import_helpers = false;
  isolated_declarations = none;
  jsx = JsxType.jsx_none;
  types = [];
  extends = [];
  references = [];
  set = nothing_set;
}

abbrev first_base : TsConfig
first_base = record (plain_config (codes "config")) {
  composite = some true;
  out_dir = codes "dist";
  set = record nothing_set { out_dir = true };
}

abbrev last_base : TsConfig
last_base = record (plain_config (codes "config/strict")) {
  jsx = JsxType.jsx_react;
  set = record nothing_set { out_dir = true };
}

setting-merge_bases_example :
    setting Setting.out_dir (merge_bases first_base (last_base ∷ []) (codes "app"))
    ≡ some (text (codes "."))
setting-merge_bases_example =
    setting-merge_bases Setting.out_dir first_base (last_base ∷ []) (codes "app")

abbrev with_base_url : TsConfig
with_base_url = record (plain_config (codes "config")) {
  base_url = codes "src";
  set = record nothing_set { base_url = true };
}

-- The merged base stands in the current directory with the base URL as it was written in another.
base_url_stays : (merge_bases first_base (with_base_url ∷ []) (codes "app")).base_url ≡ codes "src"
unfolding merge_bases merge_base_configs
base_url_stays = refl

-- Two files that extend one another; the resolver gives what is extended as it stands.
abbrev no_options : CompilerOptions
no_options = record {
  allow_js = none;
  composite = none;
  declaration = none;
  declaration_dir = none;
  declaration_map = none;
  declaration_only = none;
  incremental = none;
  isolated_declarations = none;
  ts_build_info_file = none;
  source_map = none;
  resolve_json_module = none;
  no_emit = none;
  out_dir = none;
  root_dir = none;
  root_dirs = none;
  base_url = none;
  paths = none;
  types = none;
  jsx = none;
  import_helpers = none;
}

abbrev extending : Str → TsConfigJson
extending ext = record { extends = ext ∷ []; compiler_options = no_options; references = none }

abbrev cyclic : Str → Contents
cyclic t =
    if t == codes "a.json"
    then tsconfig_json (extending (codes "b.json"))
    else if t == codes "b.json"
    then tsconfig_json (extending (codes "a.json"))
    else missing

abbrev as_written : Str → Str → List Str
as_written dir ext = ext ∷ []

abbrev cyclic_files : List Str
cyclic_files = codes "a.json" ∷ codes "b.json" ∷ []

In-cyclic_files : (t : Str) (c : TsConfigJson) → cyclic t ≡ tsconfig_json c → In t cyclic_files
In-cyclic_files t c e = elim (Bool-cases (t == codes "a.json")) [
  | inl a ↦ here ((list_beq_iff t (codes "a.json")).0 a)
  | inr not_a ↦ elim (Bool-cases (t == codes "b.json")) [
    | inl b ↦ there (here ((list_beq_iff t (codes "b.json")).0 b))
    | inr not_b ↦ cc (rw (not_a, not_b) at e)
  ]
]

parse_file-ends_example : (parse_file cyclic as_written 3 [] (codes "a.json")).0 ≢ exhausted
unfolding lookup
parse_file-ends_example =
    parse_file-ends cyclic as_written cyclic_files In-cyclic_files 3 [] (codes "a.json")
      (omega arith)

-- A key whose prefix and suffix share the slash of the import.
abbrev lib_paths : Assoc Str (List Str)
lib_paths = (codes "lib/*/lib", codes "src/*" ∷ []) ∷ (codes "lib/*", codes "out/*" ∷ []) ∷ []

abbrev lib_paths_reversed : Assoc Str (List Str)
lib_paths_reversed =
    (codes "lib/*", codes "out/*" ∷ []) ∷ (codes "lib/*/lib", codes "src/*" ∷ []) ∷ []

is_none-expand_paths_example :
    is_none (expand_paths (with_paths first_base lib_paths) (codes "lib/lib")) ≡ true
unfolding possible_matches has_prefix has_suffix list_beq cut
is_none-expand_paths_example =
    is_none-expand_paths (with_paths first_base lib_paths) (codes "lib/lib")

paths-Within : Within lib_paths lib_paths_reversed
paths-Within key o (here e) = there (here e)
paths-Within key o (there (here e)) = here e
paths-Within key o (there (there i)) = elim i [ ]

paths-Within_back : Within lib_paths_reversed lib_paths
paths-Within_back key o (here e) = there (here e)
paths-Within_back key o (there (here e)) = here e
paths-Within_back key o (there (there i)) = elim i [ ]

other_key :
    (key k : Str) (os : List Str)
    → (key == k) ≡ false
    → (l : Str) (o : List Str) → In {A = Str × List Str} (l, o) ((k, os) ∷ [])
    → key ≢ l
other_key key k os differs l o (here e) same =
    true-false ((list_beq_iff key k).1 (same ∙ ap (λ (entry : Str × List Str). entry.0) e)) differs
other_key key k os differs l o (there i) same = elim i [ ]

lib_paths-IsKeyedOnce : IsKeyedOnce lib_paths
unfolding list_beq
lib_paths-IsKeyedOnce = (
  other_key (codes "lib/*/lib") (codes "lib/*") (codes "out/*" ∷ []) refl,
  ((λ l o i. elim i [ ]), tt),
)

lib_paths_reversed-IsKeyedOnce : IsKeyedOnce lib_paths_reversed
unfolding list_beq
lib_paths_reversed-IsKeyedOnce = (
  other_key (codes "lib/*") (codes "lib/*/lib") (codes "src/*" ∷ []) refl,
  ((λ l o i. elim i [ ]), tt),
)

expand_paths-any_order_example :
    expand_paths (with_paths first_base lib_paths) (codes "lib/x/lib")
    ≡ expand_paths (with_paths first_base lib_paths_reversed) (codes "lib/x/lib")
expand_paths-any_order_example =
    expand_paths-any_order first_base (codes "lib/x/lib") lib_paths lib_paths_reversed
      lib_paths-IsKeyedOnce lib_paths_reversed-IsKeyedOnce paths-Within paths-Within_back

abbrev root_file : WorkspacePath
root_file = record { root = []; rel = []; file_name = codes "tsconfig.json" }

abbrev config_files : ConfigFiles
config_files = ([], ([], root_file) ∷ []) ∷ []

abbrev always_default : WorkspacePath → Option TsConfig
always_default path = some (plain_config [])

abbrev source_names : List Str
source_names = codes "src" ∷ codes "app" ∷ []

source_names-IsDirName : All IsDirName source_names
unfolding contains_byte list_beq
source_names-IsDirName = (
  record { segment = record { nonempty = omega arith; no_slash = refl }; not_dot = refl },
  (record { segment = record { nonempty = omega arith; no_slash = refl }; not_dot = refl }, tt),
)

no_slash_key : (at group : Str) → file_of_group config_files (at ++ slash ∷ []) group ≡ none
unfolding file_of_group lookup list_beq
no_slash_key [] group = refl
no_slash_key (c ∷ at) group = refl

expand_import_paths-nearest_example :
    expand_import_paths always_default
      (λ dir. false)
      config_files
      (codes "app/src/a.ts")
      (codes "./b")
      (codes "lib")
    ≡ expand_in (codes "./b") (
        config_of_pair
          (nearest_config always_default (λ dir. false) config_files (codes "lib") source_names))
unfolding contains_byte
expand_import_paths-nearest_example =
    expand_import_paths-nearest always_default (λ dir. false) config_files (codes "lib")
      (codes "a.ts") (codes "./b") source_names source_names-IsDirName refl no_slash_key
