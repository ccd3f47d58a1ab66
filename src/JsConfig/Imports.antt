-- ===== src/JsConfig/Imports.antt =====
-- language/js/config.go: imports that are ignored, and imports that are resolved by a directive, in a
-- directory and all around it.
use aspect_gazelle.Base.{
  Bool, false, Option, none, some, List, [], ◌∷◌, ◌++◌, ◌||◌, Str, any, if◌then◌else◌,
}
use aspect_gazelle.Base.Exec.{Result, ok, err}
use aspect_gazelle.Glob.{GlobError, GlobExpr, parse_valid_expression}
use aspect_gazelle.JsConfig.{Settings, JsGazelleConfig}

module _ {L : Type 0} where
  abbrev pub ignored_in : Str → List (Settings L) → Bool
  ignored_in impt [] = false
  ignored_in impt (s ∷ parents) =
      any (λ (glob : Str → Bool). glob impt) s.ignore_dependencies || ignored_in impt parents

  -- IsImportIgnored
  unfoldable pub is_import_ignored : JsGazelleConfig L → Str → Bool
  is_import_ignored c impt = ignored_in impt (c.own ∷ c.parents)

  abbrev pub first_resolve : Str → List ((Str → Bool) × L) → Option L
  first_resolve imprt [] = none
  first_resolve imprt ((glob, label) ∷ resolves) =
      if glob imprt then some label else first_resolve imprt resolves

  abbrev pub or_in_parents : Option L → Option L → Option L
  or_in_parents none above = above
  or_in_parents (some label) above = some label

  abbrev pub resolution_in : Str → List (Settings L) → Option L
  resolution_in imprt [] = none
  resolution_in imprt (s ∷ parents) =
      or_in_parents (first_resolve imprt s.resolves) (resolution_in imprt parents)

  -- GetResolution
  unfoldable pub get_resolution : JsGazelleConfig L → Str → Option L
  get_resolution c imprt = resolution_in imprt (c.own ∷ c.parents)

module _ {L : Type 0} where
  abbrev pub ignore_parsed : Settings L → Result GlobError GlobExpr → Settings L
  ignore_parsed s (err e) = s
  ignore_parsed s (ok glob) = record s { ignore_dependencies = s.ignore_dependencies ++ glob ∷ [] }

  abbrev pub resolve_parsed : L → Settings L → Result GlobError GlobExpr → Settings L
  resolve_parsed label s (err e) = s
  resolve_parsed label s (ok glob) = record s { resolves = s.resolves ++ (glob, label) ∷ [] }

module _ {L : Type 0} (matches : Str → Str → Bool) (valid : Str → Bool) where
  -- AddIgnoredImport; a glob that is not valid is only reported.
  unfoldable pub add_ignored_import : Str → Settings L → Settings L
  add_ignored_import imp_glob s = ignore_parsed s (parse_valid_expression matches valid imp_glob)

  -- AddResolve
  unfoldable pub add_resolve : Str → L → Settings L → Settings L
  add_resolve imprt label s = resolve_parsed label s (parse_valid_expression matches valid imprt)
