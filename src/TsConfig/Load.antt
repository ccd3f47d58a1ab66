-- ===== src/TsConfig/Load.antt =====
-- language/js/typescript/tsconfig.go: the files of the tsconfigs that a tsconfig extends, read through
-- the map `parsed`. `contents` is what os.Open and jsonc give for a path, or their error, and
-- `resolver` the resolution of what a tsconfig extends.
use aspect_gazelle.Base.{ℕ, zero, suc, Option, none, some, List, [], ◌∷◌, nat_eq, list_eq, Str}
use aspect_gazelle.Base.Assoc.{Assoc, lookup, insert}
use aspect_gazelle.GoPath.{dir}
use aspect_gazelle.TsConfig.{TsConfig, merge_bases}
use aspect_gazelle.TsConfig.Json.{TsConfigJson, config_of}

-- What is stored for a path: none is InvalidTsconfig.
abbrev pub Parsed : Type 0
Parsed = Assoc Str (Option TsConfig)

-- The results of parseTsConfigJSONFile, and that the fuel has run out: `absent` is `nil, nil`.
pub data Loaded : Type 0 where
  loaded : TsConfig → Loaded
  absent failed exhausted : Loaded

-- A file as it is read: no such file, or one that is not a tsconfig.
pub data Contents : Type 0 where
  missing malformed : Contents
  tsconfig_json : TsConfigJson → Contents

abbrev pub without_empty_texts : List Str → List Str
without_empty_texts [] = []
without_empty_texts ([] ∷ texts) = without_empty_texts texts
without_empty_texts ((c ∷ t) ∷ texts) = (c ∷ t) ∷ without_empty_texts texts

-- Some base or none, unless the fuel runs out.
abbrev pub Found : Type 0
Found = Option (Option TsConfig) × Parsed

-- After a potential file is read: it is the base, or the rest of the potential files is tried.
abbrev pub or_next : Loaded × Parsed → (Parsed → Found) → Found
or_next (loaded base, parsed) next = (some (some base), parsed)
or_next (absent, parsed) next = next parsed
or_next (failed, parsed) next = next parsed
or_next (exhausted, parsed) next = (none, parsed)

-- The loop over the files that one `extends` may mean; `load` is parseTsConfigJSONFile.
unfoldable pub find_base : (Parsed → Str → Loaded × Parsed) → List Str → Parsed → Found
find_base load [] parsed = (some none, parsed)
find_base load (potential ∷ potentials) parsed = elim (lookup potential parsed) [
  | some none ↦ find_base load potentials parsed
  | none ↦ or_next (load parsed potential) (find_base load potentials)
  | some (some c) ↦ or_next (load parsed potential) (find_base load potentials)
]

abbrev pub Bases : Type 0
Bases = Option (List TsConfig) × Parsed

abbrev pub add_base : Option TsConfig → Bases → Bases
add_base none bases = bases
add_base (some base) (none, parsed) = (none, parsed)
add_base (some base) (some bases, parsed) = (some (base ∷ bases), parsed)

abbrev pub then_bases : Found → (Parsed → Bases) → Bases
then_bases (none, parsed) rest = (none, parsed)
then_bases (some found, parsed) rest = add_base found (rest parsed)

-- The loop over `extends`; `potentials` is the resolver for the directory.
unfoldable pub find_bases :
    (Parsed → Str → Loaded × Parsed) → (Str → List Str) → List Str → Parsed → Bases
unfolding find_base
find_bases load potentials [] parsed = (some [], parsed)
find_bases load potentials (ext ∷ exts) parsed =
    then_bases (find_base load (potentials ext) parsed) (find_bases load potentials exts)

abbrev pub merged_base : Str → List TsConfig → Option TsConfig
merged_base config_dir [] = none
merged_base config_dir (base ∷ bases) = some (merge_bases base bases config_dir)

abbrev pub config_with_bases : Str → TsConfigJson → Bases → Loaded × Parsed
config_with_bases tsconfig c (none, parsed) = (exhausted, parsed)
config_with_bases tsconfig c (some bases, parsed) = (
  loaded (config_of tsconfig c (without_empty_texts c.extends) (merged_base (dir tsconfig) bases)),
  parsed,
)

-- The slot of a file that is read holds its configuration, if there is one.
abbrev pub store_config : Str → Loaded × Parsed → Loaded × Parsed
store_config tsconfig (loaded config, parsed) =
    (loaded config, insert tsconfig (some config) parsed)
store_config tsconfig (absent, parsed) = (absent, parsed)
store_config tsconfig (failed, parsed) = (failed, parsed)
store_config tsconfig (exhausted, parsed) = (exhausted, parsed)

module _ (contents : Str → Contents) (resolver : Str → Str → List Str) where
  -- parseTsConfigJSON, for a file of such contents
  unfoldable pub parse_contents :
      (Parsed → Str → Loaded × Parsed) → Str → Contents → Parsed → Loaded × Parsed
  unfolding find_bases
  parse_contents load tsconfig missing parsed = (failed, parsed)
  parse_contents load tsconfig malformed parsed = (failed, parsed)
  parse_contents load tsconfig (tsconfig_json c) parsed =
      config_with_bases tsconfig c
        (find_bases load (resolver (dir tsconfig)) (without_empty_texts c.extends) parsed)

  -- parseTsConfigJSONFile; the fuel bounds how deep files extend one another.
  unfoldable pub parse_file : ℕ → Parsed → Str → Loaded × Parsed
  unfolding parse_contents lookup insert
  parse_file zero parsed tsconfig = (exhausted, parsed)
  parse_file (suc fuel) parsed tsconfig = elim (lookup tsconfig parsed) [
    | some none ↦ (absent, parsed)
    | some (some config) ↦ (loaded config, parsed)
    | none ↦ store_config tsconfig (
        parse_contents (parse_file fuel) tsconfig (contents tsconfig) (insert tsconfig none parsed))
  ]
