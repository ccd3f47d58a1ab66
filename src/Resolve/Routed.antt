-- ===== src/Resolve/Routed.antt =====
-- resolveImports with and without fileDeps.
use aspect_gazelle.Base.{
  ◌≡◌, ◌⊎◌, Bool, true, false, Option, none, some, List, [], ◌∷◌, ◌++◌, ◌&&◌, ◌||◌, not, Str, In,
  here, there, In-append-left, In-append-right, append-In, if◌then◌else◌, inl, inr,
}
use aspect_gazelle.Base.Exec.{Result, ok, err}
use aspect_gazelle.JsConfig.{JsGazelleConfig, ValidationMode}
use aspect_gazelle.Labels.{Label, added_label}
use aspect_gazelle.Resolve.{
  ImportStatement, RuleIndex, LabelMethods, TypeScriptLang, Resolution, Failure, is_not_found,
  resolution_not_found, resolution_error, resolution_none, resolution_native_node, resolution_label,
  resolution_file, resolve_import_types,
}
use aspect_gazelle.Resolve.Collect.{
  collect_by, then_collect, Collected, put_label, add_label, add_labels, add_deps, add_resolved,
  has_no, report_unknown, collect_resolved, collect_import, collect_imports,
}

-- The labels of one set are those of two others.
pub record IsUnion (all deps files : List Label) : Type 0 where
  pub parts : (l : Label) → In l all → In l deps ⊎ In l files
  pub of_deps : (l : Label) → In l deps → In l all
  pub of_files : (l : Label) → In l files → In l all

-- Where raw files are kept apart, and where they are not.
abbrev pub together : List Label → List ImportStatement → Collected
together all unknown = record { deps = all; file_deps = none; unknown = unknown }

abbrev pub apart : List Label → List Label → List ImportStatement → Collected
apart deps files unknown = record { deps = deps; file_deps = some files; unknown = unknown }

pub data Routed : Collected → Collected → Type 0 where
  routed :
      {all deps files : List Label} {unknown : List ImportStatement}
      → IsUnion all deps files
      → Routed (together all unknown) (apart deps files unknown)

pub data RoutedResults : Result Failure Collected → Result Failure Collected → Type 0 where
  both_fail : {e : Failure} → RoutedResults (err e) (err e)
  both_end : {s t : Collected} → Routed s t → RoutedResults (ok s) (ok t)

In-last : (l x : Label) (ls : List Label) → In l (ls ++ x ∷ []) → In l ls ⊎ (l ≡ x)
In-last l x ls i = elim (append-In ls (x ∷ []) i) [
  | inl j ↦ inl j
  | inr (here e) ↦ inr e
  | inr (there none_left) ↦ elim none_left [ ]
]

put_label-deps :
    (o : Option Label) (all deps files : List Label)
    → IsUnion all deps files
    → IsUnion (put_label o all) (put_label o deps) files
put_label-deps none all deps files u = u
put_label-deps (some x) all deps files u = record {
  parts = λ l i. elim (In-last l x all i) [
    | inl j ↦ elim (u.parts l j) [ inl k ↦ inl (In-append-left deps (x ∷ []) k) | inr k ↦ inr k ]
    | inr e ↦ inl (In-append-right deps (x ∷ []) (here e))
  ];
  of_deps = λ l i. elim (In-last l x deps i) [
    | inl j ↦ In-append-left all (x ∷ []) (u.of_deps l j)
    | inr e ↦ In-append-right all (x ∷ []) (here e)
  ];
  of_files = λ l i. In-append-left all (x ∷ []) (u.of_files l i);
}

put_label-files :
    (o : Option Label) (all deps files : List Label)
    → IsUnion all deps files
    → IsUnion (put_label o all) deps (put_label o files)
put_label-files none all deps files u = u
put_label-files (some x) all deps files u = record {
  parts = λ l i. elim (In-last l x all i) [
    | inl j ↦ elim (u.parts l j) [ inl k ↦ inl k | inr k ↦ inr (In-append-left files (x ∷ []) k) ]
    | inr e ↦ inr (In-append-right files (x ∷ []) (here e))
  ];
  of_deps = λ l i. In-append-left all (x ∷ []) (u.of_deps l i);
  of_files = λ l i. elim (In-last l x files i) [
    | inl j ↦ In-append-left all (x ∷ []) (u.of_files l j)
    | inr e ↦ In-append-right all (x ∷ []) (here e)
  ];
}

if-Routed :
    (b : Bool) (s s' t t' : Collected)
    → Routed s t
    → Routed s' t'
    → Routed (if b then s else s') (if b then t else t')
if-Routed true s s' t t' h k = h
if-Routed false s s' t t' h k = k

report_unknown-Routed :
    (mode : ValidationMode) (imp : ImportStatement) (s t : Collected)
    → Routed s t
    → Routed (report_unknown mode imp s) (report_unknown mode imp t)
report_unknown-Routed mode imp s t (routed u) = if-Routed _ _ _ _ _ (routed u) (routed u)

module _ (methods : LabelMethods) (from : Label) where
  add_labels-IsUnion :
      (ls all deps files : List Label)
      → IsUnion all deps files
      → IsUnion (add_labels methods from ls all) (add_labels methods from ls deps) files
  unfolding add_labels add_label
  add_labels-IsUnion [] all deps files u = u
  add_labels-IsUnion (l ∷ ls) all deps files u =
      add_labels-IsUnion ls (add_label methods from l all) (add_label methods from l deps) files
        (put_label-deps (added_label methods.equal methods.rel from l) all deps files u)

  add_deps-Routed :
      (ls : List Label) (s t : Collected)
      → Routed s t
      → Routed (add_deps methods from ls s) (add_deps methods from ls t)
  add_deps-Routed ls s t (routed u) = routed (add_labels-IsUnion ls _ _ _ u)

  add_resolved-Routed :
      (r : Resolution) (s t : Collected)
      → Routed s t
      → Routed (add_resolved methods from r s) (add_resolved methods from r t)
  unfolding add_label
  add_resolved-Routed (resolution_error ls) s t h = add_deps-Routed ls s t h
  add_resolved-Routed resolution_none s t h = h
  add_resolved-Routed resolution_not_found s t h = h
  add_resolved-Routed resolution_native_node s t h = h
  add_resolved-Routed (resolution_label ls) s t h = add_deps-Routed ls s t h
  add_resolved-Routed (resolution_file l) s t (routed u) =
      routed (put_label-files (added_label methods.equal methods.rel from l) _ _ _ u)

module _ (methods : LabelMethods) (ix : RuleIndex) (ts : TypeScriptLang)
    (expand_paths : Str → Str → Option (List Str)) (cfg : JsGazelleConfig Label)
    (from : Label) where
  collect_resolved-Routed :
      (imp : ImportStatement) (r : Resolution) (types : List Label) (s t : Collected)
      → Routed s t
      → Routed
          (collect_resolved methods ix ts expand_paths cfg from imp r types s)
          (collect_resolved methods ix ts expand_paths cfg from imp r types t)
  collect_resolved-Routed imp r types s t h =
      let typed = add_deps-Routed methods from types s t h in
      let added =
        if-Routed (not imp.types_only || has_no types) _ _ _ _
          (add_resolved-Routed methods from r _ _ typed) typed in
      if-Routed (is_not_found r && has_no types) _ _ _ _
        (report_unknown-Routed cfg.own.validate_import_statements imp _ _ added) added

  collect_by-Routed :
      (imp : ImportStatement) (o q : Option Label) (found : Result Failure Resolution)
      (s t : Collected)
      → Routed s t
      → RoutedResults
          (collect_by methods ix ts expand_paths cfg from imp o q found s)
          (collect_by methods ix ts expand_paths cfg from imp o q found t)
  collect_by-Routed imp (some l) q found s t h =
      both_end (add_deps-Routed methods from (l ∷ []) s t h)
  collect_by-Routed imp none (some l) found s t h =
      both_end (add_deps-Routed methods from (l ∷ []) s t h)
  collect_by-Routed imp none none (err e) s t h = both_fail
  collect_by-Routed imp none none (ok r) s t h =
      both_end (collect_resolved-Routed imp r (resolve_import_types ix ts r imp) s t h)

  then_collect-Routed :
      (x y : Result Failure Collected) (next : Collected → Result Failure Collected)
      → RoutedResults x y
      → ((s t : Collected) → Routed s t → RoutedResults (next s) (next t))
      → RoutedResults (then_collect x next) (then_collect y next)
  then_collect-Routed _ _ next both_fail k = both_fail
  then_collect-Routed _ _ next (both_end h) k = k _ _ h

  collect_imports-Routed :
      (imports : List ImportStatement) (s t : Collected)
      → Routed s t
      → RoutedResults
          (collect_imports methods ix ts expand_paths cfg from imports s)
          (collect_imports methods ix ts expand_paths cfg from imports t)
  unfolding collect_imports collect_import
  collect_imports-Routed [] s t h = both_end h
  collect_imports-Routed (imp ∷ imports) s t h =
      then_collect-Routed _ _ _ (collect_by-Routed imp _ _ _ s t h) (collect_imports-Routed imports)

  IsUnion-start : (deps : List Label) → IsUnion deps deps []
  IsUnion-start deps = record {
    parts = λ l i. inl i;
    of_deps = λ l i. i;
    of_files = λ l i. elim i [ ];
  }

  -- The imports of a rule give the same with a set for the raw files as without one: the same error, or
  -- the same unknown imports and the same labels, each of which is then in deps or in the other set.
  pub collect_imports-routed :
      (imports : List ImportStatement) (deps : List Label)
      → RoutedResults
          (collect_imports methods ix ts expand_paths cfg from imports (together deps []))
          (collect_imports methods ix ts expand_paths cfg from imports (apart deps [] []))
  collect_imports-routed imports deps =
      collect_imports-Routed imports _ _ (routed (IsUnion-start deps))
