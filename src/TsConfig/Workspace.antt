-- ===== src/TsConfig/Workspace.antt =====
-- language/js/typescript/config.go: which tsconfig is that of a directory. `config_at` is what
-- getTsConfigFromPath gives for a file, and `has_package_json` what is recorded of a directory.
pub mod Found
pub mod Anchor
use aspect_gazelle.Base.{
  ℕ, zero, suc, Bool, true, false, Option, none, some, List, [], ◌∷◌, ◌++◌, ◌==◌, ◌&&◌, ◌||◌, not,
  list_eq, nat_eq, Str, codes, slash, has_prefix, length, if◌then◌else◌,
}
use aspect_gazelle.Base.Assoc.{Assoc, lookup, insert}
use aspect_gazelle.GoPath.{join, split}
use aspect_gazelle.GoPath.Dirs.{parent_dir}
use aspect_gazelle.Node.{parse_import_path}
use aspect_gazelle.Pnpm.{ProjectMap, Project, get_project, get_local_reference}
use aspect_gazelle.TsConfig.{TsConfig}
use aspect_gazelle.TsConfig.Expand.{is_relative_path, expand_paths}

pub record WorkspacePath : Type 0 where
  pub root : Str
  pub rel : Str
  pub file_name : Str

abbrev pub ConfigFiles : Type 0
ConfigFiles = Assoc Str (Assoc Str WorkspacePath)

-- Reading a missing key of the outer map reads a nil map.
abbrev pub groups_of : Option (Assoc Str WorkspacePath) → Assoc Str WorkspacePath
groups_of none = []
groups_of (some groups) = groups

unfoldable pub file_of_group : ConfigFiles → Str → Str → Option WorkspacePath
file_of_group files rel group_name = lookup group_name (groups_of (lookup rel files))

abbrev pub store_file : Str → Str → WorkspacePath → Option WorkspacePath → ConfigFiles → ConfigFiles
store_file rel group_name path (some existing) files = files
store_file rel group_name path none files =
    insert rel (insert group_name path (groups_of (lookup rel files))) files

-- SetTsConfigFile; a second file for a group is only reported. The empty map that is made before for
-- a directory without one reads as no map does.
unfoldable pub set_ts_config_file : Str → Str → Str → Str → ConfigFiles → ConfigFiles
unfolding file_of_group insert
set_ts_config_file root rel group_name file_name files =
    store_file rel group_name (record { root = root; rel = rel; file_name = file_name })
      (file_of_group files rel group_name) files

abbrev pub local_paths : Str → Option Str → List Str
local_paths sub_file none = []
local_paths sub_file (some local_ref) = join local_ref sub_file ∷ []

module _ {L : Type 0} where
  abbrev pub package_paths : Option (Project L) → Str × Str → List Str
  package_paths none (pkg, sub_file) = []
  package_paths (some p) (pkg, sub_file) =
      if pkg == [] then [] else local_paths sub_file (get_local_reference p pkg)

  -- tsConfigResolver
  unfoldable pub ts_config_resolver : ProjectMap L → Str → Str → List Str
  unfolding is_relative_path get_project parse_import_path get_local_reference
  ts_config_resolver pm dir rel =
      (if is_relative_path rel then join dir rel ∷ [] else [])
      ++ package_paths (get_project pm dir) (parse_import_path rel)

-- The variables of FindConfig: a group's own config, the closest default, and the closest directory
-- with a package.json.
pub record Search : Type 0 where
  pub config : Option (Str × TsConfig)
  pub default_config : Option (Str × TsConfig)
  pub package_dir : Option Str

-- The results of FindConfig; a directory is empty where there is no config.
pub record FoundConfig : Type 0 where
  pub anchor_rel : Str
  pub config_rel : Str
  pub config : Option TsConfig

abbrev pub or_first {ℓ} : {A : Type ℓ} → Option A → Option A → Option A
or_first none second = second
or_first (some a) second = some a

abbrev pub at_dir : Str → Option TsConfig → Option (Str × TsConfig)
at_dir dir none = none
at_dir dir (some c) = some (dir, c)

abbrev pub ran {ℓ} : {A : Type ℓ} → Option A → Bool
ran none = false
ran (some a) = true

abbrev pub rel_of : Option (Str × TsConfig) → Str
rel_of none = []
rel_of (some (dir, c)) = dir

abbrev pub config_of_pair : Option (Str × TsConfig) → Option TsConfig
config_of_pair none = none
config_of_pair (some (dir, c)) = some c

-- The anchor for a package.json at or below the config.
abbrev pub anchor_of : Str → Option Str → Option TsConfig → Str
anchor_of config_rel none config = config_rel
anchor_of config_rel (some dir) none = config_rel
anchor_of config_rel (some dir) (some c) =
    if config_rel == [] || dir == config_rel || has_prefix dir (config_rel ++ slash ∷ [])
    then dir
    else config_rel

-- The root may also be called ".".
abbrev pub undotted : Str → Str
undotted dir = if dir == codes "." then [] else dir

abbrev pub then_around : Bool × Search → Search → Search
then_around (ended, s) around = if ended then s else around

abbrev pub found_of : Search → FoundConfig
found_of s =
    let found = or_first s.config s.default_config in
    record {
      anchor_rel = anchor_of (rel_of found) s.package_dir (config_of_pair found);
      config_rel = rel_of found;
      config = config_of_pair found;
    }

abbrev pub expand_in : Str → Option TsConfig → Option (List Str)
expand_in f none = some []
expand_in f (some c) = expand_paths c f

module _ (config_at : WorkspacePath → Option TsConfig) (has_package_json : Str → Bool)
    (files : ConfigFiles) where
  abbrev pub config_of_file : Option WorkspacePath → Option TsConfig
  config_of_file none = none
  config_of_file (some path) = config_at path

  -- GetTsConfigFile
  unfoldable pub get_ts_config_file : Str → Str → Option TsConfig
  unfolding file_of_group
  get_ts_config_file rel group_name = config_of_file (file_of_group files rel group_name)

  -- The config of the group in a directory, where there is a group.
  abbrev pub group_config : Str → Str → Option TsConfig
  group_config group_name dir = if group_name == [] then none else get_ts_config_file dir group_name

  abbrev pub with_default : Str → Search → Search
  with_default dir s = record s {
    default_config = or_first s.default_config (at_dir dir (get_ts_config_file dir []));
  }

  abbrev pub with_package_dir : Str → Search → Search
  with_package_dir dir s = record s {
    package_dir = or_first s.package_dir (if has_package_json dir then some dir else none);
  }

  -- What the loop does in a directory, after its own config: whether it ends, and the variables.
  abbrev pub search_default : Str → Str → Search → Bool × Search
  search_default group_name dir s =
      if group_name == [] && not (ran s.default_config) && ran (get_ts_config_file dir [])
      then (true, with_default dir s)
      else (dir == [], with_package_dir dir (with_default dir s))

  abbrev pub search_dir : Str → Str → Option TsConfig → Search → Bool × Search
  search_dir group_name dir none s = search_default group_name dir s
  search_dir group_name dir (some c) s = (true, record s { config = some (dir, c) })

  -- The loop, on fuel.
  unfoldable pub find_config_loop : ℕ → Str → Str → Search → Search
  unfolding get_ts_config_file
  find_config_loop zero group_name dir s =
      (search_dir group_name (undotted dir) (group_config group_name (undotted dir)) s).1
  find_config_loop (suc fuel) group_name dir s =
      let at = undotted dir in
      let visited = search_dir group_name at (group_config group_name at) s in
      let around = find_config_loop fuel group_name (parent_dir at) visited.1 in
      then_around visited around

  -- FindConfig
  unfoldable pub find_config : Str → Str → FoundConfig
  unfolding find_config_loop
  find_config dir group_name = found_of (
      find_config_loop (length dir) group_name dir
        (record { config = none; default_config = none; package_dir = none }))

  -- ExpandPaths of the workspace
  unfoldable pub expand_import_paths : Str → Str → Str → Option (List Str)
  unfolding find_config expand_paths
  expand_import_paths from f group_name = expand_in f (find_config (split from).0 group_name).config
