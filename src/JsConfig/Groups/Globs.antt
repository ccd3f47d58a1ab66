-- ===== src/JsConfig/Groups/Globs.antt =====
-- Lookups of target groups after a change, and the globs that a directive leaves to a group.
use aspect_gazelle.Base.{
  ◌≡◌, refl, ◌∙◌, ap, Bool, true, false, Option, none, some, List, [], ◌∷◌, ◌++◌, ◌==◌, map, nat_eq,
  list_eq, list_beq_iff, Str, Bool-cases, if◌then◌else◌, inl, inr, arith,
}
use aspect_gazelle.Base.Exec.{ok}
use aspect_gazelle.JsConfig.{
  TargetGroup, Settings, JsGazelleConfig, source_globs, child_group, new_child,
}
use aspect_gazelle.JsConfig.Groups.{
  find_target, get_source_target, update_target, add_target_glob, new_target, add_source,
  put_source, normalize_and_validate_glob, same_flag,
}

module _ {L : Type 0} where
  abbrev map_target :
      (TargetGroup L → TargetGroup L) → Option (TargetGroup L) → Option (TargetGroup L)
  map_target f none = none
  map_target f (some g) = some (f g)

  -- A change that keeps names is seen at the group's own name only.
  pub find_target-update_target :
      (name other : Str) (f : TargetGroup L → TargetGroup L) (gs : List (TargetGroup L))
      → ((g : TargetGroup L) → (f g).name ≡ g.name)
      → find_target other (update_target name f gs)
        ≡ (if name == other then map_target f (find_target name gs) else find_target other gs)
  unfolding find_target update_target
  find_target-update_target name other f [] same = ground arith
  find_target-update_target name other f (g ∷ gs) same = ground (
    arith,
    same g,
    list_beq_iff name other,
    list_beq_iff g.name name,
    list_beq_iff g.name other,
    list_beq_iff (f g).name other,
    find_target-update_target name other f gs same,
  )

  pub find_target-append :
      (other : Str) (gs : List (TargetGroup L)) (g : TargetGroup L)
      → find_target other (gs ++ g ∷ []) ≡ elim (find_target other gs) [
        | none ↦ if g.name == other then some g else none
        | some h ↦ some h
      ]
  unfolding find_target
  find_target-append other [] g = refl
  find_target-append other (h ∷ gs) g = ground (arith, find_target-append other gs g)

-- A group that a js_files directive names for the first time.
abbrev pub added : {L : Type 0} → Str → Str → Bool → Option (TargetGroup L) → TargetGroup L
added name glob flag none = new_target name glob flag
added name glob flag (some g) = add_source glob g

module _ {L : Type 0} where
  find_target-put_source :
      (name other glob : Str) (flag : Bool) (s : Settings L) (found : Option (TargetGroup L))
      → find_target name s.targets ≡ found
      → (put_source name glob flag s found).0 ≡ ok tt
      → find_target other (put_source name glob flag s found).1.targets
        ≡ (if name == other then some (added name glob flag found) else find_target other s.targets)
  find_target-put_source name other glob flag s none e h = ground (
    arith,
    find_target-append other s.targets (new_target name glob flag),
    list_beq_iff name other,
  )
  find_target-put_source name other glob flag s (some g) e h =
      elim (Bool-cases (same_flag g.testonly flag)) [
        | inl same ↦
            ground
              (arith, find_target-update_target name other (add_source glob) s.targets (λ g. refl))
        | inr differs ↦ ground arith
      ]

module _ {L : Type 0} (matches : Str → Str → Bool) (valid : Str → Bool) where
  -- After addTargetGlob succeeds, the group of the name has the trimmed glob as the last of its own
  -- ones, is new where there was none, and every other group is as before.
  pub find_target-add_target_glob :
      (name other glob trimmed : Str) (flag : Bool) (s : Settings L)
      → normalize_and_validate_glob matches valid name glob ≡ ok trimmed
      → (add_target_glob matches valid name glob flag s).0 ≡ ok tt
      → get_source_target other (add_target_glob matches valid name glob flag s).1 ≡ (
          if name == other
          then some (added name trimmed flag (get_source_target name s))
          else get_source_target other s)
  unfolding add_target_glob
  find_target-add_target_glob name other glob trimmed flag s valid_glob succeeds = rw valid_glob (
      find_target-put_source name other trimmed flag s (find_target name s.targets) refl
        (rw (add_target_glob, valid_glob) at succeeds))

same_flag_self : (b : Bool) → same_flag b b ≡ true
same_flag_self true = refl
same_flag_self false = refl

abbrev pub globs_of : {L : Type 0} → Option (TargetGroup L) → Option (List Str)
globs_of none = none
globs_of (some g) = some (source_globs g)

module _ {L : Type 0} where
  find_target-map :
      (name : Str) (gs : List (TargetGroup L))
      → find_target name (map child_group gs) ≡ map_target child_group (find_target name gs)
  unfolding find_target child_group
  find_target-map name [] = refl
  find_target-map name (g ∷ gs) = ground (arith, find_target-map name gs)

  globs_of-child :
      (found : Option (TargetGroup L)) → globs_of (map_target child_group found) ≡ globs_of found
  unfolding source_globs child_group
  globs_of-child none = refl
  globs_of-child (some g) = refl

module _ {L : Type 0} (matches : Str → Str → Bool) (valid : Str → Bool) where
  add_target_glob-succeeds :
      (name glob trimmed : Str) (s : Settings L) (g : TargetGroup L)
      → normalize_and_validate_glob matches valid name glob ≡ ok trimmed
      → get_source_target name s ≡ some g
      → (add_target_glob matches valid name glob g.testonly s).0 ≡ ok tt
  unfolding add_target_glob
  add_target_glob-succeeds name glob trimmed s g valid_glob found =
      rw (valid_glob, found, same_flag_self g.testonly)

  -- In a sub-directory the first glob that a js_files directive gives to a group replaces the globs
  -- that it inherits; every other group has those of the parent directory.
  pub source_globs-add_target_glob :
      (c : JsGazelleConfig L) (child_path name other glob trimmed : Str) (g : TargetGroup L)
      → normalize_and_validate_glob matches valid name glob ≡ ok trimmed
      → get_source_target name c.own ≡ some g
      → globs_of (
          get_source_target other
            (add_target_glob matches valid name glob g.testonly (new_child child_path c).own).1)
        ≡ (if name == other then some (trimmed ∷ []) else globs_of (get_source_target other c.own))
  unfolding new_child child_group source_globs
  source_globs-add_target_glob c child_path name other glob trimmed g valid_glob found =
      let s = (new_child child_path c).own in
      let found_child : get_source_target name s ≡ some (child_group g) =
        find_target-map name c.own.targets ∙ ap (map_target child_group) found in
      let succeeds =
        add_target_glob-succeeds name glob trimmed s (child_group g) valid_glob found_child in
      rw
        (
          find_target-add_target_glob matches valid name other glob trimmed g.testonly s valid_glob
              succeeds,
          found_child,
        )
        (elim (Bool-cases (name == other)) [
          | inl same ↦ rw same
          | inr differs ↦
              rw (differs, find_target-map other c.own.targets)
                (globs_of-child (find_target other c.own.targets))
        ])
