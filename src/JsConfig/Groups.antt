-- ===== src/JsConfig/Groups.antt =====
-- language/js/config.go: the target groups, their globs and their visibility. `matches` and `valid`
-- are doublestar's, and `parse_label` is label.Parse.
pub mod Globs
use aspect_gazelle.Base.{
  Bool, true, false, Option, none, some, List, [], ◌∷◌, ◌++◌, ◌==◌, nat_eq, list_eq, Str, codes,
  trim_prefix, if◌then◌else◌, not,
}
use aspect_gazelle.Base.Split.{trim_space}
use aspect_gazelle.Base.Exec.{Result, ok, err, Done}
use aspect_gazelle.Glob.{GlobError, GlobExpr, parse_valid_expression}
use aspect_gazelle.JsConfig.{TargetGroup, Settings}

pub data GroupError : Type 0 where
  target_not_found : Str → Str → GroupError
  invalid_visibility : Str → GroupError
  invalid_glob : Str → Str → GlobError → GroupError
  can_not_override : Str → Str → GroupError
  empty_asset_glob : Str → GroupError

abbrev pub Step : Type 0 → Type 0
Step L = Result GroupError Done × Settings L

module _ {L : Type 0} where
  unfoldable pub find_target : Str → List (TargetGroup L) → Option (TargetGroup L)
  find_target target_name [] = none
  find_target target_name (g ∷ gs) =
      let rest = find_target target_name gs in if g.name == target_name then some g else rest

  -- GetSourceTarget
  abbrev pub get_source_target : Str → Settings L → Option (TargetGroup L)
  get_source_target target_name s = find_target target_name s.targets

  -- A change of the group that find_target finds.
  unfoldable pub update_target :
      Str → (TargetGroup L → TargetGroup L) → List (TargetGroup L) → List (TargetGroup L)
  update_target target_name f [] = []
  update_target target_name f (g ∷ gs) =
      let rest = update_target target_name f gs in
      if g.name == target_name then f g ∷ gs else g ∷ rest

  -- The labels up to the first that is invalid, and that one.
  unfoldable pub parse_labels : (Str → Option L) → List Str → List L × Option Str
  parse_labels parse_label [] = ([], none)
  parse_labels parse_label (v ∷ vs) =
      let rest = parse_labels parse_label vs in
      elim (parse_label (trim_space v)) [ none ↦ ([], some v) | some l ↦ (l ∷ rest.0, rest.1) ]

  -- SetVisibility; the labels before an invalid one are set.
  unfoldable pub set_visibility : (Str → Option L) → Str → List Str → Settings L → Step L
  set_visibility parse_label group_name vis_labels s = elim (get_source_target group_name s) [
    | none ↦ (err (target_not_found group_name s.rel), s)
    | some g ↦
        let parsed = parse_labels parse_label vis_labels in
        let set = λ (t : TargetGroup L). record t { visibility = parsed.0 } in
        let s' = record s { targets = update_target group_name set s.targets } in
        elim parsed.1 [ none ↦ (ok tt, s') | some bad ↦ (err (invalid_visibility bad), s') ]
  ]

abbrev pub named_error : Str → Str → Result GlobError GlobExpr → Result GroupError Str
named_error target_name glob (ok m) = ok glob
named_error target_name glob (err e) = err (invalid_glob target_name glob e)

module _ (matches : Str → Str → Bool) (valid : Str → Bool) where
  -- normalizeAndValidateGlob
  unfoldable pub normalize_and_validate_glob : Str → Str → Result GroupError Str
  normalize_and_validate_glob target_name glob =
      let trimmed = trim_prefix glob (codes "./") in
      named_error target_name trimmed (parse_valid_expression matches valid trimmed)

abbrev pub same_flag : Bool → Bool → Bool
same_flag true b = b
same_flag false b = not b

module _ {L : Type 0} where
  abbrev pub new_target : Str → Str → Bool → TargetGroup L
  new_target target_name glob is_test_only = record {
    name = target_name;
    custom_sources = glob ∷ [];
    inherited_sources = [];
    custom_assets = [];
    inherited_assets = [];
    visibility = [];
    testonly = is_test_only;
  }

  abbrev pub add_source : Str → TargetGroup L → TargetGroup L
  add_source glob g = record g { custom_sources = g.custom_sources ++ glob ∷ [] }

  abbrev pub add_asset : Str → TargetGroup L → TargetGroup L
  add_asset glob g = record g { custom_assets = g.custom_assets ++ glob ∷ [] }

  abbrev pub put_source : Str → Str → Bool → Settings L → Option (TargetGroup L) → Step L
  put_source target_name glob is_test_only s none =
      (ok tt, record s { targets = s.targets ++ new_target target_name glob is_test_only ∷ [] })
  put_source target_name glob is_test_only s (some g) =
      if same_flag g.testonly is_test_only
      then (ok tt, record s { targets = update_target target_name (add_source glob) s.targets })
      else (err (can_not_override s.rel target_name), s)

  abbrev pub put_target_glob : Str → Bool → Settings L → Result GroupError Str → Step L
  put_target_glob target_name is_test_only s (err e) = (err e, s)
  put_target_glob target_name is_test_only s (ok glob) =
      put_source target_name glob is_test_only s (get_source_target target_name s)

  abbrev pub put_asset_glob : Str → Settings L → Result GroupError Str → Step L
  put_asset_glob target_name s (err e) = (err e, s)
  put_asset_glob target_name s (ok []) = (err (empty_asset_glob target_name), s)
  put_asset_glob target_name s (ok (c ∷ glob)) = elim (get_source_target target_name s) [
    | none ↦ (err (target_not_found target_name s.rel), s)
    | some g ↦
        (ok tt, record s { targets = update_target target_name (add_asset (c ∷ glob)) s.targets })
  ]

module _ {L : Type 0} (matches : Str → Str → Bool) (valid : Str → Bool) where
  -- addTargetGlob
  unfoldable pub add_target_glob : Str → Str → Bool → Settings L → Step L
  add_target_glob target_name glob is_test_only s =
      put_target_glob target_name is_test_only s
        (normalize_and_validate_glob matches valid target_name glob)

  -- addTargetAssetGlob
  unfoldable pub add_target_asset_glob : Str → Str → Settings L → Step L
  add_target_asset_glob target_name glob s =
      put_asset_glob target_name s (normalize_and_validate_glob matches valid target_name glob)
