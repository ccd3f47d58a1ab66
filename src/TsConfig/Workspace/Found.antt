-- ===== src/TsConfig/Workspace/Found.antt =====
-- The tsconfig of a directory by the directories around it.
use aspect_gazelle.Base.{
  ℕ, zero, suc, ◌≤◌, ◌≡◌, refl, sym, ◌∙◌, ap, Bool, true, false, Option, none, some, List, [], ◌∷◌,
  ◌++◌, ◌==◌, ◌&&◌, not, list_eq, nat_eq, Str, codes, slash, list_beq, trim_suffix, contains_byte,
  and-false, length, length-append, if◌then◌else◌, All, Bool-cases, inl, inr, arith, true-false,
  eq_refl,
}
use aspect_gazelle.GoPath.Dirs.{
  IsSegment, path_of, length-path_of, path_of-ne, split-append, split-no_slash, trim_slash,
  parent_dir, parent_dir-path_of, or_around, nearest_dir,
}
use aspect_gazelle.TsConfig.{TsConfig}
use aspect_gazelle.TsConfig.Workspace.{
  file_of_group, WorkspacePath, ConfigFiles, Search, or_first, at_dir, ran, config_of_pair,
  get_ts_config_file, group_config, search_dir, undotted, then_around, find_config_loop,
  find_config, expand_in, expand_import_paths,
}

-- A name of a directory: one in a path, and not that of the directory itself.
pub record IsDirName (s : Str) : Type 0 where
  pub segment : IsSegment s
  pub not_dot : (s == codes ".") ≡ false

slash-ne_dot : (at s : Str) → ((at ++ slash ∷ s) == codes ".") ≡ false
unfolding list_beq
slash-ne_dot [] s = refl
slash-ne_dot (c ∷ []) s = and-false (c == b'.')
slash-ne_dot (c ∷ d ∷ at) s = and-false (c == b'.')

path_of-ne_dot :
    (s : Str) (names : List Str) → IsDirName s → (path_of (s ∷ names) == codes ".") ≡ false
path_of-ne_dot s [] h = h.not_dot
path_of-ne_dot s (t ∷ names) h = slash-ne_dot (path_of (t ∷ names)) s

abbrev searching : Option (Str × TsConfig) → Option Str → Search
searching d p = record { config = none; default_config = d; package_dir = p }

abbrev chosen : Search → Option (Str × TsConfig)
chosen s = or_first s.config s.default_config

or_first-or_around :
    (dir : Str) (d : Option (Str × TsConfig)) (o : Option TsConfig)
    (around : Option (Str × TsConfig))
    → or_first (or_first d (at_dir dir o)) around ≡ or_first d (or_around dir o around)
or_first-or_around dir none none around = refl
or_first-or_around dir none (some c) around = refl
or_first-or_around dir (some d) o around = refl

module _ (config_at : WorkspacePath → Option TsConfig) (has_package_json : Str → Bool)
    (files : ConfigFiles) (g : Str) where
  abbrev own : Str → Option TsConfig
  own dir = group_config config_at has_package_json files g dir

  abbrev default : Str → Option TsConfig
  default dir = get_ts_config_file config_at has_package_json files dir []

  -- The config by the innermost directory of those around this one.
  abbrev pub nearest_config : List Str → Option (Str × TsConfig)
  nearest_config names = or_first (nearest_dir own names) (nearest_dir default names)

  own_none : g == [] ≡ true → (names : List Str) → nearest_dir own names ≡ none
  own_none e [] = rw e
  own_none e (s ∷ names) = rw (e, own_none e names)

  abbrev visited : Str → Option (Str × TsConfig) → Option Str → Bool × Search
  visited dir d p = search_dir config_at has_package_json files g dir (own dir) (searching d p)

  -- A loop that ends in this directory, or goes on to those around it, which it is right about.
  visited-chosen :
      (dir : Str) (d : Option (Str × TsConfig)) (p : Option Str) (around : Search)
      (own_around default_around : Option (Str × TsConfig)) (o c : Option TsConfig)
      → own dir ≡ o
      → default dir ≡ c
      → ((dir == []) ≡ true → (own_around ≡ none) × (default_around ≡ none))
      → ((g == []) ≡ true → own_around ≡ none)
      → (o ≡ none
          → (dir == []) ≡ false
          → chosen around
            ≡ or_first own_around (or_first (or_first d (at_dir dir c)) default_around))
      → chosen (then_around (visited dir d p) around)
        ≡ or_first (or_around dir o own_around) (or_first d (or_around dir c default_around))
  visited-chosen dir d p around own_around default_around (some x) c eo ec root grouped rest = rw eo
  visited-chosen dir (some y) p around own_around default_around none c eo ec root grouped rest =
      elim (Bool-cases (dir == [])) [
        | inl t ↦ elim (Bool-cases (g == [])) [
          | inl k ↦ rw (eo, ec, t, k, (root t).0) refl
          | inr k ↦ rw (eo, ec, t, k, (root t).0) refl
        ]
        | inr f ↦ elim (Bool-cases (g == [])) [
          | inl k ↦ rw (eo, ec, f, k) (rest refl f)
          | inr k ↦ rw (eo, ec, f, k) (rest refl f)
        ]
      ]
  visited-chosen dir none p around own_around default_around none none eo ec root grouped rest =
      elim (Bool-cases (dir == [])) [
        | inl t ↦ elim (Bool-cases (g == [])) [
          | inl k ↦ rw (eo, ec, t, k, (root t).0, (root t).1) refl
          | inr k ↦ rw (eo, ec, t, k, (root t).0, (root t).1) refl
        ]
        | inr f ↦ elim (Bool-cases (g == [])) [
          | inl k ↦ rw (eo, ec, f, k) (rest refl f)
          | inr k ↦ rw (eo, ec, f, k) (rest refl f)
        ]
      ]
  visited-chosen dir none p around own_around default_around none (some y) eo ec root grouped rest =
      elim (Bool-cases (g == [])) [
        | inl k ↦ rw (eo, ec, k, grouped k) refl
        | inr k ↦ elim (Bool-cases (dir == [])) [
          | inl t ↦ rw (eo, ec, t, k, (root t).0) refl
          | inr f ↦ rw (eo, ec, f, k) (rest refl f)
        ]
      ]

  visited-searching :
      (dir : Str) (d : Option (Str × TsConfig)) (p : Option Str)
      → own dir ≡ none
      → (p' : Option Str) × ((visited dir d p).1
          ≡ searching (or_first d (at_dir dir (default dir))) p')
  visited-searching dir d p e = elim (Bool-cases (g == [] && not (ran d) && ran (default dir))) [
    | inl t ↦ (p, rw (e, t))
    | inr f ↦ (or_first p (if has_package_json dir then some dir else none), rw (e, f))
  ]

  visited-root :
      (d : Option (Str × TsConfig)) (p : Option Str) (o : Option TsConfig)
      → own [] ≡ o
      → then_around (visited [] d p) (searching none none) ≡ (visited [] d p).1
  visited-root d p (some c) e = rw e refl
  visited-root d p none e = elim (Bool-cases (g == [] && not (ran d) && ran (default []))) [
    | inl t ↦ rw (e, t) refl
    | inr f ↦ rw (e, f, eq_refl {A = Str} []) refl
  ]

  find_config_loop-step :
      (fuel : ℕ) (dir : Str) (s : Search)
      → (dir == codes ".") ≡ false
      → find_config_loop config_at has_package_json files (suc fuel) g dir s
        ≡ then_around (search_dir config_at has_package_json files g dir (own dir) s) (
            find_config_loop config_at has_package_json files fuel g
              (parent_dir dir)
              (search_dir config_at has_package_json files g dir (own dir) s).1)
  unfolding find_config_loop
  find_config_loop-step fuel dir s e =
      let same : undotted dir ≡ dir = rw e refl in
      ap
        (λ (at : Str). then_around (search_dir config_at has_package_json files g at (own at) s) (
          find_config_loop config_at has_package_json files fuel g (parent_dir at)
            (search_dir config_at has_package_json files g at (own at) s).1))
        same

  find_config_loop-nearest :
      (fuel : ℕ) (names : List Str) (d : Option (Str × TsConfig)) (p : Option Str)
      → All IsDirName names
      → length (path_of names) ≤ fuel
      → chosen
          (find_config_loop config_at has_package_json files fuel g (path_of names) (searching d p))
        ≡ or_first (nearest_dir own names) (or_first d (nearest_dir default names))
  unfolding find_config_loop list_beq
  find_config_loop-nearest zero [] d p h b =
      sym (ap chosen (visited-root d p (own []) refl))
      ∙ visited-chosen [] d p (searching none none) none none (own []) (default []) refl refl
          (λ e. (refl, refl)) (λ e. refl) (λ e f. true-false (eq_refl {A = Str} []) f)
  find_config_loop-nearest zero (s ∷ names) d p h b =
      absurd (omega (arith, length-path_of s names h.0.segment.nonempty, b))
  find_config_loop-nearest (suc f) [] d p h b =
      visited-chosen [] d p _ none none (own []) (default []) refl refl (λ e. (refl, refl))
        (λ e. refl) (λ e f. true-false (eq_refl {A = Str} []) f)
  find_config_loop-nearest (suc f) (s ∷ names) d p h b =
      let dir = path_of (s ∷ names) in
      ap chosen (find_config_loop-step f dir (searching d p) (path_of-ne_dot s names h.0))
      ∙ visited-chosen dir d p _ (nearest_dir own names) (nearest_dir default names) (own dir)
          (default dir) refl refl (λ t. true-false t (path_of-ne s names h.0.segment.nonempty))
          (λ e. own_none e names)
          (λ e k.
            (let (p', same) = visited-searching dir d p e in
              ap
                (λ (state : Search).
                  chosen
                    (find_config_loop config_at has_package_json files f g (parent_dir dir) state))
                same
              ∙ ap
                  (λ (at : Str). chosen (
                    find_config_loop config_at has_package_json files f g at
                      (searching (or_first d (at_dir dir (default dir))) p')))
                  (parent_dir-path_of s names h.0.segment.no_slash)
              ∙ find_config_loop-nearest f names (or_first d (at_dir dir (default dir))) p' h.1
                  (omega (arith, b, length-path_of s names h.0.segment.nonempty))))

  parent_dir-slash : (at : Str) → parent_dir (at ++ slash ∷ []) ≡ at
  unfolding parent_dir contains_byte
  parent_dir-slash at =
      ap (λ (r : Str × Str). trim_suffix r.0 (slash ∷ [])) (split-append at [] refl) ∙ trim_slash at

  slash-ne : (at : Str) → ((at ++ slash ∷ []) == []) ≡ false
  unfolding list_beq
  slash-ne [] = refl
  slash-ne (c ∷ at) = refl

  -- A path that ends in a slash, for which there is no tsconfig.
  module _ (at : Str)
      (unknown : (group_name : Str)
        → file_of_group files (at ++ slash ∷ []) group_name ≡ none) where
    unknown_default : default (at ++ slash ∷ []) ≡ none
    unfolding get_ts_config_file
    unknown_default = rw (unknown [])

    unknown_own : own (at ++ slash ∷ []) ≡ none
    unfolding get_ts_config_file
    unknown_own = elim (Bool-cases (g == [])) [ inl t ↦ rw t refl | inr f ↦ rw (f, unknown g) refl ]

    find_config_loop-slash :
        (fuel : ℕ) (names : List Str)
        → at ≡ path_of names
        → All IsDirName names
        → length at ≤ fuel
        → chosen (
            find_config_loop config_at has_package_json files
              (suc fuel)
              g
              (at ++ slash ∷ [])
              (searching none none))
          ≡ nearest_config names
    find_config_loop-slash fuel names e h b =
        let dir = at ++ slash ∷ [] in
        let (p', same) = visited-searching dir none none unknown_own in
        let none_here : or_first none (at_dir dir (default dir)) ≡ none =
          ap (at_dir dir) unknown_default in
        ap chosen (find_config_loop-step fuel dir (searching none none) (slash-ne_dot at []))
        ∙ visited-chosen dir none none _ (nearest_dir own names) (nearest_dir default names) none
            none unknown_own unknown_default (λ t. true-false t (slash-ne at))
            (λ k. own_none k names)
            (λ k f.
              ap
                (λ (state : Search).
                  chosen (
                    find_config_loop config_at has_package_json files fuel g (parent_dir dir)
                      state))
                (same ∙ ap (λ (d : Option (Str × TsConfig)). searching d p') none_here)
              ∙ ap
                  (λ (at' : Str). chosen (
                    find_config_loop config_at has_package_json files fuel g at'
                      (searching none p')))
                  (parent_dir-slash at ∙ e)
              ∙ find_config_loop-nearest fuel names none p' h (omega (arith, b, ap length e)))

    find_config-slash :
        (names : List Str)
        → at ≡ path_of names
        → All IsDirName names
        → (find_config config_at has_package_json files (at ++ slash ∷ []) g).config
          ≡ config_of_pair (nearest_config names)
    unfolding find_config
    find_config-slash names e h =
        let n : length (at ++ slash ∷ []) ≡ suc (length at) =
          omega (arith, length-append at (slash ∷ [])) in
        rw n (ap config_of_pair (find_config_loop-slash (length at) names e h (omega arith)))

  find_config-root :
      (find_config config_at has_package_json files [] g).config
      ≡ config_of_pair (nearest_config [])
  unfolding find_config list_beq
  find_config-root = ap config_of_pair (find_config_loop-nearest 0 [] none none tt (omega arith))

-- What an import of a file may mean by its tsconfigs: the file lies in a directory whose names are not
-- empty, are not "." and have no slash, and no tsconfig is declared for a path that ends in a slash. The tsconfig
-- that is used is the one of the group in the innermost directory, from that of the file up to the
-- root, that has one; if none has, or there is no group, that of the innermost directory with a
-- tsconfig for no group; and without any the import means nothing else.
pub expand_import_paths-nearest :
    (config_at : WorkspacePath → Option TsConfig) (has_package_json : Str → Bool)
    (files : ConfigFiles) (group_name name f : Str) (names : List Str)
    → All IsDirName names
    → contains_byte name slash ≡ false
    → ((at group : Str) → file_of_group files (at ++ slash ∷ []) group ≡ none)
    → expand_import_paths config_at has_package_json files (path_of (name ∷ names)) f group_name
      ≡ expand_in f
          (config_of_pair (nearest_config config_at has_package_json files group_name names))
unfolding expand_import_paths
expand_import_paths-nearest config_at has_package_json files g name f [] h whole unknown =
    rw (split-no_slash name whole)
      (ap (expand_in f) (find_config-root config_at has_package_json files g))
expand_import_paths-nearest config_at has_package_json files g name f (t ∷ names) h whole unknown =
    rw (split-append (path_of (t ∷ names)) name whole) (
      ap (expand_in f) (
        find_config-slash config_at has_package_json files g (path_of (t ∷ names))
          (unknown (path_of (t ∷ names))) (t ∷ names) refl h))
