-- ===== src/PackageJson/Entries.antt =====
-- The files that package.json maps subpaths to are entries of the package.
use aspect_gazelle.Base.{
  ◌≡◌, ◌⊎◌, refl, sym, ap, subst, true, Option, none, some, List, [], ◌∷◌, ◌++◌, ◌==◌, nat_eq,
  list_eq, Str, In, In-append-left, In-append-right, append-In, here, there, codes, has_prefix, cut,
  Bool-cases, inl, inr,
}
use aspect_gazelle.Base.Assoc.{Assoc, lookup, insert}
use aspect_gazelle.Base.Exec.{Result, ok}
use aspect_gazelle.Base.Sort.{sort_by-In}
use aspect_gazelle.GoPath.{clean}
use aspect_gazelle.Labels.{compare_text}
use aspect_gazelle.TsConfig.Expand.AnyOrder.{In-lookup}
use aspect_gazelle.PackageJson.{
  PackageJson, SubpathPattern, star, sorted_targets, exact_subpaths, add_exact, index_subpaths,
  compare_patterns, pattern_subpaths,
}
use aspect_gazelle.PackageJson.Best.{pattern_subpaths-Source}
use aspect_gazelle.PackageJson.Parse.{
  NpmPackageJson, Mapping, add_entry, append_at, targets_or_nil, add_export, add_import,
  export_mapping, import_mapping, parse_package_json, main_entries, export_subpath, package_of,
}
use aspect_gazelle.PackageJson.Additions.{add_exports-keeps, add_imports_field-keeps}

-- The targets that satisfy `Q` are entries, by their clean paths.
abbrev Covers : (Str → Type 0) → Assoc Str (List Str) → List Str → Type 0
Covers Q raw entries =
    (k : Str) (ts : List Str) (f : Str) → In (k, ts) raw → In f ts → Q f → In (clean f) entries

insert-In :
    (key k : Str) (v ts : List Str) (raw : Assoc Str (List Str))
    → In (k, ts) (insert key v raw)
    → (ts ≡ v) ⊎ In (k, ts) raw
unfolding insert
insert-In key k v ts [] (here e) = inl (ap (λ (entry : Str × List Str). entry.1) e)
insert-In key k v ts [] (there i) = elim i [ ]
insert-In key k v ts ((stored, old) ∷ raw) i = elim (Bool-cases (stored == key)) [
  | inl t ↦ elim (rw (insert, t) at i) [
    | here e ↦ inl (ap (λ (entry : Str × List Str). entry.1) e)
    | there j ↦ inr (there j)
  ]
  | inr f ↦ elim (rw (insert, f) at i) [
    | here e ↦ inr (here e)
    | there j ↦ elim (insert-In key k v ts raw j) [ inl e ↦ inl e | inr l ↦ inr (there l) ]
  ]
]

targets_or_nil-In :
    (key f : Str) (raw : Assoc Str (List Str)) (o : Option (List Str))
    → lookup key raw ≡ o
    → In f (targets_or_nil o)
    → (ts : List Str) × In (key, ts) raw × In f ts
targets_or_nil-In key f raw none e i = elim i [ ]
targets_or_nil-In key f raw (some ts) e i = (ts, In-lookup key ts raw e, i)

append_at-Covers :
    (Q : Str → Type 0) (key target : Str) (raw : Assoc Str (List Str)) (es es' : List Str)
    → ((x : Str) → In x es → In x es')
    → (Q target → In (clean target) es')
    → Covers Q raw es
    → Covers Q (append_at key target raw) es'
append_at-Covers Q key target raw es es' grows new h k ts f i j q =
    elim (insert-In key k (targets_or_nil (lookup key raw) ++ target ∷ []) ts raw i) [
      | inr old ↦ grows (clean f) (h k ts f old j q)
      | inl e ↦
          elim (append-In (targets_or_nil (lookup key raw)) (target ∷ [])
            (subst (λ (l : List Str). In f l) e j)) [
              | inl old ↦
                  let (us, known, l) = targets_or_nil-In key f raw (lookup key raw) refl old in
                  grows (clean f) (h key us f known l q)
              | inr (here same) ↦
                  subst (λ (x : Str). In (clean x) es') (sym same) (new (subst Q same q))
              | inr (there none_left) ↦ elim none_left [ ]
            ]
    ]

In-add_entry : (x file : Str) (es : List Str) → In x es → In x (add_entry file es)
In-add_entry x file es i = In-append-left es (clean file ∷ []) i

In-added : (file : Str) (es : List Str) → In (clean file) (add_entry file es)
In-added file es = In-append-right es (clean file ∷ []) (here refl)

add_export-Covers :
    (key s : Str) (m : Mapping)
    → Covers (λ f. Unit) m.raw m.entries
    → Covers (λ f. Unit) (add_export key s m).raw (add_export key s m).entries
unfolding add_export
add_export-Covers key s m h =
    append_at-Covers (λ f. Unit) (export_subpath key) (clean s) m.raw m.entries
      (add_entry (clean s) m.entries) (λ x i. In-add_entry x (clean s) m.entries i)
      (λ q. In-added (clean s) m.entries) h

abbrev IsFile : Str → Type 0
IsFile f = has_prefix f (codes "./") ≡ true

add_import-grows :
    (key s : Str) (m : Mapping) (x : Str) → In x m.entries → In x (add_import key s m).entries
unfolding add_import
add_import-grows key s m x i = elim (Bool-cases (has_prefix s (codes "./"))) [
  | inl t ↦ rw t (In-add_entry x s m.entries i)
  | inr f ↦ rw f i
]

add_import-Covers :
    (key s : Str) (m : Mapping)
    → Covers IsFile m.raw m.entries
    → Covers IsFile (add_import key s m).raw (add_import key s m).entries
unfolding add_import
add_import-Covers key s m h =
    append_at-Covers IsFile (clean key) s m.raw m.entries (add_import key s m).entries
      (add_import-grows key s m) (λ q. rw q (In-added s m.entries)) h

add_exact-In :
    (key k : Str) (ts us : List Str) (parts : Option (Str × Str)) (exact : Assoc Str (List Str))
    → In (k, ts) (add_exact key us parts exact)
    → ◌≡◌ {A = Str × List Str} (k, ts) (key, sorted_targets us) ⊎ In (k, ts) exact
add_exact-In key k ts us none exact (here e) = inl e
add_exact-In key k ts us none exact (there i) = inr i
add_exact-In key k ts us (some parts) exact i = inr i

exact_subpaths-Source :
    (raw : Assoc Str (List Str)) (k : Str) (ts : List Str)
    → In (k, ts) (exact_subpaths raw)
    → (us : List Str) × In (k, us) raw × (ts ≡ sorted_targets us)
unfolding exact_subpaths
exact_subpaths-Source [] k ts i = elim i [ ]
exact_subpaths-Source ((key, us) ∷ raw) k ts i =
    elim (add_exact-In key k ts us (cut key star) (exact_subpaths raw) i) [
      | inl e ↦ (
        us,
        here (ap (λ (entry : Str × List Str). (entry.0, us)) e),
        ap (λ (entry : Str × List Str). entry.1) e,
      )
      | inr later ↦
          let (vs, found, sorted) = exact_subpaths-Source raw k ts later in
          (vs, there found, sorted)
    ]

-- The same of what the mappings are indexed by.
abbrev IndexCovers : (Str → Type 0) → Assoc Str (List Str) → List SubpathPattern → List Str → Type 0
IndexCovers Q exact patterns entries =
    Covers Q exact entries
    × ((p : SubpathPattern) (f : Str) → In p patterns → In f p.targets → Q f → In (clean f) entries)

index_subpaths-IndexCovers :
    (Q : Str → Type 0) (raw : Assoc Str (List Str)) (entries : List Str)
    → Covers Q raw entries
    → IndexCovers Q (index_subpaths raw).0 (index_subpaths raw).1 entries
unfolding index_subpaths
index_subpaths-IndexCovers Q raw entries h = (
  λ k ts f i j q.
      (let (us, found, sorted) = exact_subpaths-Source raw k ts i in
        h k us f found (sort_by-In compare_text us f (subst (λ (l : List Str). In f l) sorted j))
          q),
  λ p f i j q.
      (let source =
          pattern_subpaths-Source raw p (sort_by-In compare_patterns (pattern_subpaths raw) p i) in
        h (p.prefix ++ star ∷ p.suffix) source.targets f source.entry
          (sort_by-In compare_text source.targets f
            (subst (λ (l : List Str). In f l) source.sorted j))
          q),
)

-- Every target of exports is an entry of the package by its clean path, and so is every target of
-- imports that starts with "./".
abbrev pub EntriesCover : PackageJson → Type 0
EntriesCover p =
    IndexCovers (λ f. Unit) p.exports p.export_patterns p.entries
    × IndexCovers IsFile p.imports p.import_patterns p.entries

package_of-EntriesCover : (c : NpmPackageJson) → EntriesCover (package_of c)
package_of-EntriesCover c =
    let start : Mapping = record { raw = []; entries = main_entries c } in
    let exported = export_mapping c in
    let covered =
      add_exports-keeps (λ m. Covers (λ f. Unit) m.raw m.entries) c.exports start add_export-Covers
        (λ k ts f i j q. elim i [ ]) in
    let imported : Mapping = record { raw = []; entries = exported.entries } in
    let kept =
      add_imports_field-keeps (λ m. (x : Str) → In x exported.entries → In x m.entries) c.imports
        imported (λ key s n h x i. add_import-grows key s n x (h x i)) (λ x i. i) in
    let covered' =
      add_imports_field-keeps (λ m. Covers IsFile m.raw m.entries) c.imports imported
        add_import-Covers (λ k ts f i j q. elim i [ ]) in
    (
      index_subpaths-IndexCovers (λ f. Unit) exported.raw (import_mapping c).entries
          (λ k ts f i j q. kept (clean f) (covered k ts f i j q)),
      index_subpaths-IndexCovers IsFile (import_mapping c).raw (import_mapping c).entries covered',
    )

ok_same : {E A : Type 0} (a b : A) → ◌≡◌ {A = Result E A} (ok a) (ok b) → a ≡ b
ok_same a b e = cc

-- In a package.json that is parsed, every target of exports, exact or of a pattern, is an entry of the
-- package by its clean path, and so is every target of imports that starts with "./".
pub parse_package_json-EntriesCover :
    {E : Type 0} (c : NpmPackageJson) (p : PackageJson)
    → parse_package_json {E = E} (ok c) ≡ ok p
    → EntriesCover p
unfolding parse_package_json
parse_package_json-EntriesCover c p e =
    subst EntriesCover (ok_same _ _ e) (package_of-EntriesCover c)
