-- ===== src/JsConfig/Directives/Kept.antt =====
-- What every directive leaves as it was: the groups that there are, and the imports that are ignored.
use aspect_gazelle.Base.{
  ◌≡◌, refl, sym, ◌∙◌, ap, Bool, true, false, none, List, [], ◌∷◌, ◌++◌, ◌==◌, ◌&&◌, ◌||◌, not, any,
  append_assoc, append-nil, nat_eq, list_eq, list_beq_iff, Str, arith,
}
use aspect_gazelle.JsConfig.{TargetGroup, Settings, default_library_name, default_tests_name}
use aspect_gazelle.JsConfig.Groups.{find_target, update_target, same_flag}

-- The names of the groups with their flags `testonly`.
abbrev pub flags : {L : Type 0} → List (TargetGroup L) → List (Str × Bool)
flags [] = []
flags (g ∷ gs) = (g.name, g.testonly) ∷ flags gs

abbrev pub named : Str → List (Str × Bool) → Bool
named name [] = false
named name ((n, flag) ∷ fs) = n == name || named name fs

abbrev pub distinct_names : List (Str × Bool) → Bool
distinct_names [] = true
distinct_names ((n, flag) ∷ fs) = not (named n fs) && distinct_names fs

-- The library and the tests come first, with their flags, and no two groups share a name.
pub record IsWellGrouped {L : Type 0} (s : Settings L) : Type 0 where
  pub more : List (Str × Bool)
  pub defaults : flags s.targets ≡ (default_library_name, false) ∷ (default_tests_name, true) ∷ more
  pub distinct : distinct_names (flags s.targets) ≡ true

abbrev pub ignored_here : {L : Type 0} → Str → Settings L → Bool
ignored_here imp s = any (λ (glob : Str → Bool). glob imp) s.ignore_dependencies

-- From one settings to the next: groups are added at the end only, under new names, and what is
-- ignored stays so.
pub record Extends {L : Type 0} (s t : Settings L) : Type 0 where
  pub added : List (Str × Bool)
  pub flags_added : flags t.targets ≡ flags s.targets ++ added
  pub stay_distinct :
      distinct_names (flags s.targets) ≡ true → distinct_names (flags t.targets) ≡ true
  pub ignored : (imp : Str) → ignored_here imp s ≡ true → ignored_here imp t ≡ true

module _ {L : Type 0} where
  pub Extends-same :
      (s t : Settings L)
      → flags t.targets ≡ flags s.targets
      → t.ignore_dependencies ≡ s.ignore_dependencies
      → Extends s t
  Extends-same s t same_flags same_ignored = record {
    added = [];
    flags_added = same_flags ∙ sym (append-nil (flags s.targets));
    stay_distinct = λ h. rw same_flags h;
    ignored = λ imp h. rw same_ignored h;
  }

  pub Extends-refl : (s : Settings L) → Extends s s
  Extends-refl s = Extends-same s s refl refl

  pub Extends-trans : (s t u : Settings L) → Extends s t → Extends t u → Extends s u
  Extends-trans s t u first second = record {
    added = first.added ++ second.added;
    flags_added =
        second.flags_added
        ∙ ap (λ (fs : List (Str × Bool)). fs ++ second.added) first.flags_added
        ∙ append_assoc (flags s.targets) first.added second.added;
    stay_distinct = λ h. second.stay_distinct (first.stay_distinct h);
    ignored = λ imp h. second.ignored imp (first.ignored imp h);
  }

  pub IsWellGrouped-Extends : (s t : Settings L) → IsWellGrouped s → Extends s t → IsWellGrouped t
  IsWellGrouped-Extends s t w e = record {
    more = w.more ++ e.added;
    defaults = e.flags_added ∙ ap (λ (fs : List (Str × Bool)). fs ++ e.added) w.defaults;
    distinct = e.stay_distinct w.distinct;
  }

  pub flags-update_target :
      (name : Str) (f : TargetGroup L → TargetGroup L) (gs : List (TargetGroup L))
      → ((g : TargetGroup L) → (f g).name ≡ g.name)
      → ((g : TargetGroup L) → (f g).testonly ≡ g.testonly)
      → flags (update_target name f gs) ≡ flags gs
  unfolding update_target
  flags-update_target name f [] same_name same_flag = refl
  flags-update_target name f (g ∷ gs) same_name same_flag =
      ground (arith, same_name g, same_flag g, flags-update_target name f gs same_name same_flag)

  pub flags-append :
      (gs : List (TargetGroup L)) (g : TargetGroup L)
      → flags (gs ++ g ∷ []) ≡ flags gs ++ (g.name, g.testonly) ∷ []
  flags-append [] g = refl
  flags-append (h ∷ gs) g = ap (◌∷◌ (h.name, h.testonly)) (flags-append gs g)

  pub named-find_target :
      (name : Str) (gs : List (TargetGroup L))
      → find_target name gs ≡ none
      → named name (flags gs) ≡ false
  unfolding find_target
  named-find_target name [] h = refl
  named-find_target name (g ∷ gs) h = ground (arith, named-find_target name gs)

named-append_one :
    (name n : Str) (flag : Bool) (fs : List (Str × Bool))
    → named name (fs ++ (n, flag) ∷ []) ≡ (named name fs || n == name)
named-append_one name n flag [] = ground arith
named-append_one name n flag ((m, b) ∷ fs) = ground (arith, named-append_one name n flag fs)

pub distinct_names-append_one :
    (n : Str) (flag : Bool) (fs : List (Str × Bool))
    → distinct_names fs ≡ true
    → named n fs ≡ false
    → distinct_names (fs ++ (n, flag) ∷ []) ≡ true
distinct_names-append_one n flag [] d fresh = refl
distinct_names-append_one n flag ((m, b) ∷ fs) d fresh = ground (
  arith,
  named-append_one m n flag fs,
  list_beq_iff m n,
  list_beq_iff n m,
  distinct_names-append_one n flag fs,
)
