-- ===== src/PackageJson/Additions.antt =====
-- What the loops of ParsePackageJson keep.
use aspect_gazelle.Base.{Option, none, some, List, [], ◌∷◌, nat_eq, list_eq, Str, codes}
use aspect_gazelle.Base.Assoc.{Assoc}
use aspect_gazelle.PackageJson.Parse.{
  Target, ExportsField, ImportsField, Mapping, add_export, add_import, add_conditions, add_target,
  subpath_of_key, add_subpaths, add_array, add_exports, add_imports, add_imports_field,
}

-- A predicate that every addition of a text keeps is kept by the additions of all.
module _ (P : Mapping → Type 0) where
  add_conditions-keeps :
      (add : Str → Mapping → Mapping) (e : Assoc Str (Option Str)) (m : Mapping)
      → ((s : Str) (n : Mapping) → P n → P (add s n))
      → P m
      → P (add_conditions add e m)
  add_conditions-keeps add [] m step h = h
  add_conditions-keeps add ((k, some t) ∷ e) m step h =
      add_conditions-keeps add e (add t m) step (step t m h)
  add_conditions-keeps add ((k, none) ∷ e) m step h = add_conditions-keeps add e m step h

  add_target-keeps :
      (add : Str → Mapping → Mapping) (t : Target) (m : Mapping)
      → ((s : Str) (n : Mapping) → P n → P (add s n))
      → P m
      → P (add_target add t m)
  add_target-keeps add (Target.text t) m step h = step t m h
  add_target-keeps add Target.null m step h = h
  add_target-keeps add (Target.conditions e) m step h = add_conditions-keeps add e m step h
  add_target-keeps add Target.other m step h = h

  add_subpaths-keeps :
      (exports : Assoc Str Target) (m : Mapping)
      → ((key s : Str) (n : Mapping) → P n → P (add_export key s n))
      → P m
      → P (add_subpaths exports m)
  unfolding add_subpaths
  add_subpaths-keeps [] m step h = h
  add_subpaths-keeps ((k, t) ∷ exports) m step h =
      add_subpaths-keeps exports (add_target (add_export (subpath_of_key k)) t m) step
        (add_target-keeps (add_export (subpath_of_key k)) t m (step (subpath_of_key k)) h)

  add_array-keeps :
      (files : List (Option Str)) (m : Mapping)
      → ((key s : Str) (n : Mapping) → P n → P (add_export key s n))
      → P m
      → P (add_array files m)
  unfolding add_array
  add_array-keeps [] m step h = h
  add_array-keeps (some f ∷ files) m step h =
      add_array-keeps files (add_export (codes ".") f m) step (step (codes ".") f m h)
  add_array-keeps (none ∷ files) m step h = add_array-keeps files m step h

  pub add_exports-keeps :
      (exports : ExportsField) (m : Mapping)
      → ((key s : Str) (n : Mapping) → P n → P (add_export key s n))
      → P m
      → P (add_exports exports m)
  unfolding add_exports
  add_exports-keeps ExportsField.no_exports m step h = h
  add_exports-keeps (ExportsField.single f) m step h = step (codes ".") f m h
  add_exports-keeps (ExportsField.subpaths e) m step h = add_subpaths-keeps e m step h
  add_exports-keeps (ExportsField.array fs) m step h = add_array-keeps fs m step h
  add_exports-keeps ExportsField.other_exports m step h = h

  add_imports-keeps :
      (imports : Assoc Str Target) (m : Mapping)
      → ((key s : Str) (n : Mapping) → P n → P (add_import key s n))
      → P m
      → P (add_imports imports m)
  unfolding add_imports
  add_imports-keeps [] m step h = h
  add_imports-keeps ((k, t) ∷ imports) m step h =
      add_imports-keeps imports (add_target (add_import k) t m) step
        (add_target-keeps (add_import k) t m (step k) h)

  pub add_imports_field-keeps :
      (imports : ImportsField) (m : Mapping)
      → ((key s : Str) (n : Mapping) → P n → P (add_import key s n))
      → P m
      → P (add_imports_field imports m)
  unfolding add_imports_field
  add_imports_field-keeps ImportsField.no_imports m step h = h
  add_imports_field-keeps (ImportsField.specifiers i) m step h = add_imports-keeps i m step h
  add_imports_field-keeps ImportsField.other_imports m step h = h
