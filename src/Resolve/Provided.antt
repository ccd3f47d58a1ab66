-- ===== src/Resolve/Provided.antt =====
-- Every output of a source can be imported.
use aspect_gazelle.Base.{
  ◌≡◌, ◌⊎◌, refl, sym, ap, subst, Bool, false, some, List, [], ◌∷◌, ◌==◌, ◌&&◌, ◌||◌, not, list_eq,
  nat_eq, list_beq_iff, Str, codes, In, here, there, In-append-left, In-append-right, Bool-cases,
  or-eq_false, inl, inr, arith,
}
use aspect_gazelle.GoPath.{clean}
use aspect_gazelle.JsImports.{join_pkg, to_out_dir_path, to_import_paths}
use aspect_gazelle.Resolve.{language_name}
use aspect_gazelle.Resolve.Imports.{
  OutputAttributes, declaration_dir_of, output_paths, source_paths, js_specs, specs_of_paths,
  specs_of_sources, source_file_imports,
}

In-js_specs :
    (p : Str) (ps : List Str)
    → In p ps
    → In (record { lang = language_name; imp = p }) (js_specs ps)
In-js_specs p [] i = elim i [ ]
In-js_specs p (q ∷ ps) (here e) =
    here (ap (λ (x : Str). record { lang = language_name; imp = x }) e)
In-js_specs p (q ∷ ps) (there i) = there (In-js_specs p ps i)

In-specs_of_paths :
    (p at : Str) (paths : List Str)
    → In at paths
    → In p (to_import_paths at)
    → In (record { lang = language_name; imp = p }) (specs_of_paths paths)
unfolding specs_of_paths
In-specs_of_paths p at [] i j = elim i [ ]
In-specs_of_paths p at (q ∷ paths) (here e) j =
    In-append-left (js_specs (to_import_paths q)) (specs_of_paths paths)
      (In-js_specs p (to_import_paths q) (subst (λ (x : Str). In p (to_import_paths x)) e j))
In-specs_of_paths p at (q ∷ paths) (there i) j =
    In-append-right (js_specs (to_import_paths q)) (specs_of_paths paths)
      (In-specs_of_paths p at paths i j)

-- Without directories an output has the path of its source.
no_directories :
    (root out src : Str)
    → (not (out == codes ".") || not (root == codes ".")) ≡ false
    → to_out_dir_path root out src ≡ src
unfolding to_out_dir_path
no_directories root out src h =
    let (o, r) = or-eq_false (not (out == codes ".")) _ h in
    elim (Bool-cases (out == codes ".")) [
      | inr f ↦ absurd cc
      | inl t ↦ elim (Bool-cases (root == codes ".")) [ inr f ↦ absurd cc | inl k ↦ rw (t, k) refl ]
    ]

-- An output has the path of its source, or is among the paths where its condition holds.
In-output_paths :
    (pkg root out src : Str)
    → (join_pkg pkg (to_out_dir_path root out src) ≡ join_pkg pkg src)
      ⊎ In
          (join_pkg pkg (to_out_dir_path root out src))
          (output_paths (not (out == codes ".") || not (root == codes ".")) pkg root out src)
In-output_paths pkg root out src =
    elim (Bool-cases (not (out == codes ".") || not (root == codes "."))) [
      | inr f ↦ inl (ap (join_pkg pkg) (no_directories root out src f))
      | inl t ↦ elim (Bool-cases (to_out_dir_path root out src == src)) [
        | inl same ↦ inl (ap (join_pkg pkg) ((list_beq_iff _ _).0 same))
        | inr other ↦ inr (rw (t, other) (here refl))
      ]
    ]

other_directory : (b same : Bool) → same ≡ false → b ≡ (b && not same)
other_directory b same h = ground arith

In-source_paths-out :
    (pkg root out decl src : Str)
    → In (join_pkg pkg (to_out_dir_path root out src)) (source_paths pkg root out decl src)
unfolding source_paths
In-source_paths-out pkg root out decl src = elim (In-output_paths pkg root out src) [
  | inl same ↦ here same
  | inr i ↦ there (In-append-left _ _ i)
]

In-source_paths-declaration :
    (pkg root out decl src : Str)
    → In (join_pkg pkg (to_out_dir_path root decl src)) (source_paths pkg root out decl src)
unfolding source_paths
In-source_paths-declaration pkg root out decl src = elim (Bool-cases (decl == out)) [
  | inl t ↦
      subst
        (λ (d : Str).
          In (join_pkg pkg (to_out_dir_path root d src)) (source_paths pkg root out decl src))
        (sym ((list_beq_iff decl out).0 t)) (In-source_paths-out pkg root out decl src)
  | inr f ↦ elim (In-output_paths pkg root decl src) [
    | inl same ↦ here same
    | inr i ↦ there (
        In-append-right
          (output_paths (not (out == codes ".") || not (root == codes ".")) pkg root out src) _
          (subst
            (λ (b : Bool).
              In (join_pkg pkg (to_out_dir_path root decl src)) (output_paths b pkg root decl src))
            (other_directory (not (decl == codes ".") || not (root == codes ".")) (decl == out) f)
            i))
  ]
]

-- The source itself and what the rule makes of it, by its attributes.
pub data IsOutput (a : OutputAttributes) (src : Str) : Str → Type 0 where
  of_source : IsOutput a src src
  of_out_dir : IsOutput a src (to_out_dir_path (clean a.root_dir) (clean a.out_dir) src)
  of_declaration_dir :
      IsOutput a src
        (to_out_dir_path (clean a.root_dir) (declaration_dir_of a (clean a.out_dir)) src)

In-source_paths :
    (pkg src : Str) (a : OutputAttributes) (out : Str)
    → IsOutput a src out
    → In (join_pkg pkg out) (
        source_paths pkg
          (clean a.root_dir)
          (clean a.out_dir)
          (declaration_dir_of a (clean a.out_dir))
          src)
unfolding source_paths
In-source_paths pkg src a _ of_source = here refl
In-source_paths pkg src a _ of_out_dir = In-source_paths-out pkg _ _ _ src
In-source_paths pkg src a _ of_declaration_dir = In-source_paths-declaration pkg _ _ _ src

In-specs_of_sources :
    (pkg root out decl src at p : Str) (srcs : List Str)
    → In src srcs
    → In at (source_paths pkg root out decl src)
    → In p (to_import_paths at)
    → In (record { lang = language_name; imp = p }) (specs_of_sources pkg root out decl srcs)
unfolding specs_of_sources
In-specs_of_sources pkg root out decl src at p [] i j k = elim i [ ]
In-specs_of_sources pkg root out decl src at p (s ∷ srcs) (here e) j k =
    In-append-left (specs_of_paths (source_paths pkg root out decl s)) _ (
      In-specs_of_paths p at (source_paths pkg root out decl s)
        (subst (λ (x : Str). In at (source_paths pkg root out decl x)) e j) k)
In-specs_of_sources pkg root out decl src at p (s ∷ srcs) (there i) j k =
    In-append-right (specs_of_paths (source_paths pkg root out decl s)) _
      (In-specs_of_sources pkg root out decl src at p srcs i j k)

-- Of every source of a rule, the source itself, its output and its declarations, with root_dir taken
-- from their path and out_dir or declaration_dir put before it, can be imported by each of the paths
-- that such a file has: the outputs that are left out are there as others.
pub source_file_imports-provided :
    (pkg src out p : Str) (a : OutputAttributes) (srcs : List Str)
    → In src srcs
    → IsOutput a src out
    → In p (to_import_paths (join_pkg pkg out))
    → In (record { lang = language_name; imp = p }) (source_file_imports pkg a (some srcs))
unfolding source_file_imports
source_file_imports-provided pkg src out p a srcs i o j =
    In-specs_of_sources pkg _ _ _ src (join_pkg pkg out) p srcs i (In-source_paths pkg src a out o)
      j
