-- ===== src/TsConfig/Workspace/Anchor.antt =====
-- The directory of the ts_config rule that FindConfig returns.
use aspect_gazelle.Base.{
  ℕ, zero, suc, ◌≡◌, ◌⊎◌, refl, Bool, true, false, Option, none, some, some-injective, [], ◌∷◌,
  ◌++◌, ◌==◌, ◌&&◌, ◌||◌, not, list_eq, nat_eq, Str, slash, has_prefix, length, if◌then◌else◌,
  Bool-cases, inl, inr, subst,
}
use aspect_gazelle.GoPath.Dirs.{parent_dir}
use aspect_gazelle.TsConfig.{TsConfig}
use aspect_gazelle.TsConfig.Workspace.{
  WorkspacePath, ConfigFiles, Search, or_first, ran, rel_of, config_of_pair, anchor_of, undotted,
  get_ts_config_file, group_config, search_dir, then_around, find_config_loop, find_config,
}

module _ (config_at : WorkspacePath → Option TsConfig) (has_package_json : Str → Bool)
    (files : ConfigFiles) (g : Str) where
  abbrev IsRecorded : Option Str → Type 0
  IsRecorded p = (dir : Str) → p ≡ some dir → has_package_json dir ≡ true

  record_dir-IsRecorded :
      (dir : Str) (p : Option Str)
      → IsRecorded p
      → IsRecorded (or_first p (if has_package_json dir then some dir else none))
  record_dir-IsRecorded dir (some d) h = h
  record_dir-IsRecorded dir none h = elim (Bool-cases (has_package_json dir)) [
    | inl t ↦
        rw t (λ e same. subst (λ (x : Str). has_package_json x ≡ true) (some-injective _ _ same) t)
    | inr f ↦ rw f h
  ]

  search_dir-IsRecorded :
      (dir : Str) (s : Search) (o : Option TsConfig)
      → IsRecorded s.package_dir
      → IsRecorded (search_dir config_at has_package_json files g dir o s).1.package_dir
  search_dir-IsRecorded dir s (some c) h = h
  search_dir-IsRecorded dir s none h =
      elim (Bool-cases (
        g == []
        && not (ran s.default_config)
        && ran (get_ts_config_file config_at has_package_json files dir []))) [
          | inl t ↦ rw t h
          | inr f ↦ rw f (record_dir-IsRecorded dir s.package_dir h)
        ]

  then_around-IsRecorded :
      (v : Bool × Search) (around : Search)
      → IsRecorded v.1.package_dir
      → IsRecorded around.package_dir
      → IsRecorded (then_around v around).package_dir
  then_around-IsRecorded (true, s) around h k = h
  then_around-IsRecorded (false, s) around h k = k

  find_config_loop-IsRecorded :
      (fuel : ℕ) (dir : Str) (s : Search)
      → IsRecorded s.package_dir
      → IsRecorded (find_config_loop config_at has_package_json files fuel g dir s).package_dir
  unfolding find_config_loop
  find_config_loop-IsRecorded zero dir s h =
      search_dir-IsRecorded (undotted dir) s
        (group_config config_at has_package_json files g (undotted dir)) h
  find_config_loop-IsRecorded (suc fuel) dir s h =
      let at = undotted dir in
      let v =
        search_dir config_at has_package_json files g at
          (group_config config_at has_package_json files g at) s in
      let kept =
        search_dir-IsRecorded at s (group_config config_at has_package_json files g at) h in
      then_around-IsRecorded v
        (find_config_loop config_at has_package_json files fuel g (parent_dir at) v.1) kept
        (find_config_loop-IsRecorded fuel (parent_dir at) v.1 kept)

-- The anchor is the directory of the config itself, or one with a package.json, in that directory.
abbrev pub IsAnchored : (Str → Bool) → Str → Str → Type 0
IsAnchored has_package_json anchor config_rel =
    (anchor ≡ config_rel)
    ⊎ ((has_package_json anchor ≡ true)
        × ((config_rel == []
              || anchor == config_rel
              || has_prefix anchor (config_rel ++ slash ∷ []))
            ≡ true))

anchor_of-IsAnchored :
    (has_package_json : Str → Bool) (config_rel : Str) (p : Option Str) (config : Option TsConfig)
    → ((dir : Str) → p ≡ some dir → has_package_json dir ≡ true)
    → IsAnchored has_package_json (anchor_of config_rel p config) config_rel
anchor_of-IsAnchored has_package_json config_rel none config h = inl refl
anchor_of-IsAnchored has_package_json config_rel (some dir) none h = inl refl
anchor_of-IsAnchored has_package_json config_rel (some dir) (some c) h =
    elim (Bool-cases
      (config_rel == [] || dir == config_rel || has_prefix dir (config_rel ++ slash ∷ []))) [
        | inl t ↦ rw t (inr (h dir refl, t))
        | inr f ↦ rw f (inl refl)
      ]

-- FindConfig returns as the directory of the ts_config rule that of the tsconfig, or a directory with
-- a package.json that lies in it.
pub find_config-IsAnchored :
    (config_at : WorkspacePath → Option TsConfig) (has_package_json : Str → Bool)
    (files : ConfigFiles) (dir group_name : Str)
    → IsAnchored has_package_json
        (find_config config_at has_package_json files dir group_name).anchor_rel
        (find_config config_at has_package_json files dir group_name).config_rel
unfolding find_config
find_config-IsAnchored config_at has_package_json files dir g =
    let found =
      find_config_loop config_at has_package_json files (length dir) g dir
        (record { config = none; default_config = none; package_dir = none }) in
    anchor_of-IsAnchored has_package_json (rel_of (or_first found.config found.default_config))
      found.package_dir (config_of_pair (or_first found.config found.default_config))
      (find_config_loop-IsRecorded config_at has_package_json files g (length dir) dir _
        (λ d e. absurd cc))
