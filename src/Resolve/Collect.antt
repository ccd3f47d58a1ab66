-- ===== src/Resolve/Collect.antt =====
-- language/js/resolve.go: resolveImports, which collects the labels of the imports of a rule.
use aspect_gazelle.Base.{
  Bool, true, false, Option, none, some, List, [], ◌∷◌, ◌++◌, ◌&&◌, ◌||◌, not, list_eq, nat_eq, Str,
  if◌then◌else◌,
}
use aspect_gazelle.Base.Exec.{Result, ok, err}
use aspect_gazelle.JsConfig.{JsGazelleConfig, ValidationMode}
use aspect_gazelle.JsConfig.Imports.{get_resolution}
use aspect_gazelle.Labels.{Label, added_label}
use aspect_gazelle.Resolve.{
  ImportStatement, RuleIndex, LabelMethods, TypeScriptLang, Resolution, resolution_error,
  resolution_none, resolution_not_found, resolution_native_node, resolution_label, resolution_file,
  Failure, is_not_found, resolve_import, resolve_import_types,
}

-- What is collected of the imports of a rule: the labels of deps and, where raw files are kept apart,
-- of fileDeps, and the imports that are reported as unknown.
pub record Collected : Type 0 where
  pub deps : List Label
  pub file_deps : Option (List Label)
  pub unknown : List ImportStatement

-- `len(types) == 0`
abbrev pub has_no {ℓ} : {A : Type ℓ} → List A → Bool
has_no [] = true
has_no (x ∷ xs) = false

abbrev pub put_label : Option Label → List Label → List Label
put_label none labels = labels
put_label (some l) labels = labels ++ l ∷ []

module _ (methods : LabelMethods) (from : Label) where
  -- LabelSet.Add on a set of `from`, as a list of what was put into it.
  unfoldable pub add_label : Label → List Label → List Label
  unfolding added_label
  add_label l labels = put_label (added_label methods.equal methods.rel from l) labels

  unfoldable pub add_labels : List Label → List Label → List Label
  unfolding add_label
  add_labels [] labels = labels
  add_labels (l ∷ ls) labels = add_labels ls (add_label l labels)

  abbrev pub add_deps : List Label → Collected → Collected
  add_deps ls s = record s { deps = add_labels ls s.deps }

  abbrev pub add_to_files : Label → Option (List Label) → Collected → Collected
  add_to_files l none s = record s { deps = add_label l s.deps }
  add_to_files l (some files) s = record s { file_deps = some (add_label l files) }

  -- What an import is resolved to goes to its target.
  abbrev pub add_resolved : Resolution → Collected → Collected
  add_resolved (resolution_error ls) s = add_deps ls s
  add_resolved resolution_none s = s
  add_resolved resolution_not_found s = s
  add_resolved resolution_native_node s = s
  add_resolved (resolution_label ls) s = add_deps ls s
  add_resolved (resolution_file l) s = add_to_files l s.file_deps s

  abbrev pub add_unless_types : Resolution → ImportStatement → List Label → Collected → Collected
  add_unless_types r imp types s =
      if not imp.types_only || has_no types then add_resolved r s else s

abbrev pub validates : ValidationMode → Bool
validates ValidationMode.validation_off = false
validates _ = true

abbrev pub report_unknown : ValidationMode → ImportStatement → Collected → Collected
report_unknown mode imp s =
    if not imp.optional && validates mode then record s { unknown = s.unknown ++ imp ∷ [] } else s

abbrev pub then_collect :
    Result Failure Collected → (Collected → Result Failure Collected) → Result Failure Collected
then_collect (err e) next = err e
then_collect (ok s) next = next s

module _ (methods : LabelMethods) (ix : RuleIndex) (ts : TypeScriptLang)
    (expand_paths : Str → Str → Option (List Str)) (cfg : JsGazelleConfig Label)
    (from : Label) where
  abbrev pub collect_resolved : ImportStatement → Resolution → List Label → Collected → Collected
  collect_resolved imp r types s =
      let added = add_unless_types methods from r imp types (add_deps methods from types s) in
      if is_not_found r && has_no types
      then report_unknown cfg.own.validate_import_statements imp added
      else added

  abbrev pub collect_result :
      ImportStatement → Result Failure Resolution → Collected → Result Failure Collected
  collect_result imp (err e) s = err e
  collect_result imp (ok r) s = ok (collect_resolved imp r (resolve_import_types ix ts r imp) s)

  abbrev pub collect_by :
      ImportStatement
      → Option Label
      → Option Label
      → Result Failure Resolution
      → Collected
      → Result Failure Collected
  collect_by imp (some override) res found s = ok (add_deps methods from (override ∷ []) s)
  collect_by imp none (some res) found s = ok (add_deps methods from (res ∷ []) s)
  collect_by imp none none found s = collect_result imp found s

  -- One round of the loop over the imports.
  unfoldable pub collect_import : ImportStatement → Collected → Result Failure Collected
  unfolding resolve_import resolve_import_types add_labels get_resolution
  collect_import imp s =
      collect_by imp (ix.find_rule_with_override imp.spec) (get_resolution cfg imp.spec.imp)
        (resolve_import ix ts expand_paths from imp) s

  unfoldable pub collect_imports : List ImportStatement → Collected → Result Failure Collected
  unfolding collect_import
  collect_imports [] s = ok s
  collect_imports (imp ∷ imports) s = then_collect (collect_import imp s) (collect_imports imports)

-- The error that is added to those of the run, or the warning.
pub data Report : Type 0 where
  no_report : Report
  import_error import_warning : List ImportStatement → Report

unfoldable pub report : ValidationMode → List ImportStatement → Report
report mode [] = no_report
report ValidationMode.validation_error (imp ∷ imports) = import_error (imp ∷ imports)
report ValidationMode.validation_warn (imp ∷ imports) = import_warning (imp ∷ imports)
report ValidationMode.validation_off (imp ∷ imports) = no_report
