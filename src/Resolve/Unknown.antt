-- ===== src/Resolve/Unknown.antt =====
-- How resolveImports ends: with an error of one import, or with the imports that are unknown.
use aspect_gazelle.Base.{
  ◌≡◌, refl, sym, ◌∙◌, ap, Bool, true, false, Option, none, some, List, [], ◌∷◌, ◌++◌, ◌&&◌, ◌||◌,
  not, Str, In, here, there, append-nil, append_assoc, if◌then◌else◌, Bool-cases, inl, inr,
}
use aspect_gazelle.Base.Exec.{Result, ok, err}
use aspect_gazelle.JsConfig.{JsGazelleConfig}
use aspect_gazelle.JsConfig.Imports.{get_resolution}
use aspect_gazelle.Labels.{Label}
use aspect_gazelle.Resolve.{
  ImportStatement, RuleIndex, LabelMethods, TypeScriptLang, Resolution, Failure, is_not_found,
  resolution_not_found, resolution_error, resolution_none, resolution_native_node, resolution_label,
  resolution_file, resolve_import, resolve_import_types,
}
use aspect_gazelle.Resolve.Collect.{
  collect_by, then_collect, Collected, add_deps, add_resolved, add_to_files, add_unless_types,
  has_no, validates, report_unknown, collect_resolved, collect_import, collect_imports,
}

abbrev is_unset : {A : Type 0} → Option A → Bool
is_unset none = true
is_unset (some a) = false

module _ (methods : LabelMethods) (ix : RuleIndex) (ts : TypeScriptLang)
    (expand_paths : Str → Str → Option (List Str)) (cfg : JsGazelleConfig Label)
    (from : Label) where
  abbrev resolves_to_nothing : ImportStatement → Result Failure Resolution → Bool
  resolves_to_nothing imp (err e) = false
  resolves_to_nothing imp (ok r) = is_not_found r && has_no (resolve_import_types ix ts r imp)

  -- An import that no directive names and that stands for nothing: it has to be there, and is checked.
  abbrev pub is_unknown : ImportStatement → Bool
  is_unknown imp =
      is_unset (ix.find_rule_with_override imp.spec)
      && is_unset (get_resolution cfg imp.spec.imp)
      && resolves_to_nothing imp (resolve_import ix ts expand_paths from imp)
      && (not imp.optional && validates cfg.own.validate_import_statements)

  abbrev pub unknown_of : List ImportStatement → List ImportStatement
  unknown_of [] = []
  unknown_of (imp ∷ imports) =
      if is_unknown imp then imp ∷ unknown_of imports else unknown_of imports

  -- An import that no directive names and that is resolved with an error.
  pub record Fails (imports : List ImportStatement) (e : Failure) : Type 0 where
    pub imp : ImportStatement
    pub listed : In imp imports
    pub no_override : ix.find_rule_with_override imp.spec ≡ none
    pub no_resolution : get_resolution cfg imp.spec.imp ≡ none
    pub failure : resolve_import ix ts expand_paths from imp ≡ err e

  abbrev pub ReportsFrom : List ImportStatement → Collected → Result Failure Collected → Type 0
  ReportsFrom imports s (err e) = Fails imports e
  ReportsFrom imports s (ok t) = t.unknown ≡ s.unknown ++ unknown_of imports

  add_resolved-unknown :
      (r : Resolution) (s : Collected) → (add_resolved methods from r s).unknown ≡ s.unknown
  add_resolved-unknown (resolution_error ls) s = refl
  add_resolved-unknown resolution_none s = refl
  add_resolved-unknown resolution_not_found s = refl
  add_resolved-unknown resolution_native_node s = refl
  add_resolved-unknown (resolution_label ls) s = refl
  add_resolved-unknown (resolution_file l) s = to_files s.file_deps
    where
      to_files :
          (files : Option (List Label)) → (add_to_files methods from l files s).unknown ≡ s.unknown
      to_files none = refl
      to_files (some files) = refl

  add_unless_types-unknown :
      (r : Resolution) (imp : ImportStatement) (types : List Label) (s : Collected)
      → (add_unless_types methods from r imp types s).unknown ≡ s.unknown
  add_unless_types-unknown r imp types s = elim (Bool-cases (not imp.types_only || has_no types)) [
    | inl t ↦ rw t (add_resolved-unknown r s)
    | inr f ↦ rw f refl
  ]

  abbrev when : Bool → ImportStatement → List ImportStatement
  when b imp = if b then imp ∷ [] else []

  report_unknown-unknown :
      (imp : ImportStatement) (s : Collected)
      → (report_unknown cfg.own.validate_import_statements imp s).unknown
        ≡ s.unknown ++ when (not imp.optional && validates cfg.own.validate_import_statements) imp
  report_unknown-unknown imp s =
      elim (Bool-cases (not imp.optional && validates cfg.own.validate_import_statements)) [
        | inl t ↦ rw t refl
        | inr f ↦ rw f (sym (append-nil s.unknown))
      ]

  collect_resolved-unknown :
      (imp : ImportStatement) (r : Resolution) (types : List Label) (s : Collected)
      → (collect_resolved methods ix ts expand_paths cfg from imp r types s).unknown
        ≡ s.unknown
          ++ when
              ((is_not_found r && has_no types)
                && (not imp.optional && validates cfg.own.validate_import_statements))
              imp
  collect_resolved-unknown imp r types s =
      let added = add_unless_types-unknown r imp types (add_deps methods from types s) in
      elim (Bool-cases (is_not_found r && has_no types)) [
        | inr f ↦ rw f (added ∙ sym (append-nil s.unknown))
        | inl t ↦ rw t (
            report_unknown-unknown imp
              (add_unless_types methods from r imp types (add_deps methods from types s))
            ∙ ap
                (λ (u : List ImportStatement).
                  u ++ when (not imp.optional && validates cfg.own.validate_import_statements) imp)
                added)
      ]

  when_unknown :
      (imp : ImportStatement) (b : Bool) → is_unknown imp ≡ b → when b imp ≡ unknown_of (imp ∷ [])
  when_unknown imp b e = rw e refl

  collect_by-Reports :
      (imp : ImportStatement) (s : Collected) (o q : Option Label)
      (found : Result Failure Resolution)
      → ix.find_rule_with_override imp.spec ≡ o
      → get_resolution cfg imp.spec.imp ≡ q
      → resolve_import ix ts expand_paths from imp ≡ found
      → ReportsFrom (imp ∷ []) s (collect_by methods ix ts expand_paths cfg from imp o q found s)
  collect_by-Reports imp s (some override) q found eo eq ef =
      sym (append-nil s.unknown)
      ∙ ap (λ (u : List ImportStatement). s.unknown ++ u) (when_unknown imp false (rw eo refl))
  collect_by-Reports imp s none (some res) found eo eq ef =
      sym (append-nil s.unknown)
      ∙ ap (λ (u : List ImportStatement). s.unknown ++ u)
          (when_unknown imp false (rw (eo, eq) refl))
  collect_by-Reports imp s none none (err e) eo eq ef = record {
    imp = imp;
    listed = here refl;
    no_override = eo;
    no_resolution = eq;
    failure = ef;
  }
  collect_by-Reports imp s none none (ok r) eo eq ef =
      collect_resolved-unknown imp r (resolve_import_types ix ts r imp) s
      ∙ ap (λ (u : List ImportStatement). s.unknown ++ u)
          (when_unknown imp _ (rw (eo, eq, ef) refl))

  collect_import-Reports :
      (imp : ImportStatement) (s : Collected)
      → ReportsFrom (imp ∷ []) s (collect_import methods ix ts expand_paths cfg from imp s)
  unfolding collect_import
  collect_import-Reports imp s = collect_by-Reports imp s _ _ _ refl refl refl

  Fails-first :
      (imp : ImportStatement) (imports : List ImportStatement) (e : Failure)
      → Fails (imp ∷ []) e
      → Fails (imp ∷ imports) e
  Fails-first imp imports e f = record {
    imp = f.imp;
    listed = elim f.listed [ here e ↦ here e | there none_left ↦ elim none_left [ ] ];
    no_override = f.no_override;
    no_resolution = f.no_resolution;
    failure = f.failure;
  }

  Fails-later :
      (imp : ImportStatement) (imports : List ImportStatement) (e : Failure)
      → Fails imports e
      → Fails (imp ∷ imports) e
  Fails-later imp imports e f = record {
    imp = f.imp;
    listed = there f.listed;
    no_override = f.no_override;
    no_resolution = f.no_resolution;
    failure = f.failure;
  }

  then_collect-Reports :
      (imp : ImportStatement) (imports : List ImportStatement) (s : Collected)
      (first : Result Failure Collected) (next : Collected → Result Failure Collected)
      → ReportsFrom (imp ∷ []) s first
      → ((t : Collected) → ReportsFrom imports t (next t))
      → ReportsFrom (imp ∷ imports) s (then_collect first next)
  then_collect-Reports imp imports s (err e) next h k = Fails-first imp imports e h
  then_collect-Reports imp imports s (ok t) next h k = joined (next t) (k t)
    where
      joined :
          (result : Result Failure Collected)
          → ReportsFrom imports t result
          → ReportsFrom (imp ∷ imports) s result
      joined (err e) f = Fails-later imp imports e f
      joined (ok u) e = elim (Bool-cases (is_unknown imp)) [
        | inl y ↦
            rw (is_unknown, y)
              (e
                ∙ ap (λ (l : List ImportStatement). l ++ unknown_of imports)
                    (h
                      ∙ ap (λ (u : List ImportStatement). s.unknown ++ u)
                          (sym (when_unknown imp true y)))
                ∙ append_assoc s.unknown (imp ∷ []) (unknown_of imports))
        | inr n ↦
            rw (is_unknown, n)
              (e
                ∙ ap (λ (l : List ImportStatement). l ++ unknown_of imports)
                    (h
                      ∙ ap (λ (u : List ImportStatement). s.unknown ++ u)
                          (sym (when_unknown imp false n))
                      ∙ append-nil s.unknown))
      ]

  -- The imports of a rule are all gone through, and then those are reported, in their order, that no
  -- directive names, that stand for nothing and are not optional, unless imports are not validated; or
  -- the result is the error with which one of them, that no directive names, is resolved.
  pub collect_imports-Reports :
      (imports : List ImportStatement) (s : Collected)
      → ReportsFrom imports s (collect_imports methods ix ts expand_paths cfg from imports s)
  unfolding collect_imports
  collect_imports-Reports [] s = sym (append-nil s.unknown)
  collect_imports-Reports (imp ∷ imports) s =
      then_collect-Reports imp imports s (collect_import methods ix ts expand_paths cfg from imp s)
        (collect_imports methods ix ts expand_paths cfg from imports) (collect_import-Reports imp s)
        (collect_imports-Reports imports)
