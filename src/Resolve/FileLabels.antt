-- ===== src/Resolve/FileLabels.antt =====
-- language/js/generate.go: addFileLabel, the file that an import path stands for.
use aspect_gazelle.Base.{
  ◌≡◌, refl, sym, ◌∙◌, ap, Bool, true, false, Option, none, some, some-injective, List, [], ◌∷◌,
  ◌&&◌, ◌||◌, not, any, list_eq, nat_eq, Str, if◌then◌else◌, Bool-cases, Option-cases, arith, inl,
  inr, subst,
}
use aspect_gazelle.Base.Assoc.{Assoc, lookup, insert, lookup-insert_self}
use aspect_gazelle.JsImports.{is_declaration_file_type}
use aspect_gazelle.Labels.{Label}

abbrev pub is_declaration : Label → Bool
is_declaration l = is_declaration_file_type l.name

none-some : {A : Type 0} {a : A} → none ≡ some a → ⊥
none-some h = absurd cc

or-false : (b : Bool) → (b || false) ≡ b
or-false b = ground arith

or_assoc : (a b c : Bool) → ((a || b) || c) ≡ (a || (b || c))
or_assoc a b c = ground arith

abbrev pub declared : Option Label → Bool
declared none = false
declared (some l) = is_declaration l

inserted-declared :
    (p : Str) (l : Label) (labels labels' : Assoc Str Label)
    → some (insert p l labels) ≡ some labels'
    → declared (lookup p labels') ≡ is_declaration l
inserted-declared p l labels labels' h =
    subst (λ (m : Assoc Str Label). declared (lookup p m) ≡ is_declaration l) (some-injective _ _ h)
      (ap declared (lookup-insert_self p l labels))

module _ (equal : Label → Label → Bool) where
  -- An import path with a declaration file keeps it; `none` is the end of the program.
  abbrev pub file_label_beside :
      Str → Label → Assoc Str Label → Option Label → Option (Assoc Str Label)
  file_label_beside import_path label labels none = some (insert import_path label labels)
  file_label_beside import_path label labels (some existing) =
      if is_declaration existing
      then (if is_declaration label && not (equal existing label) then none else some labels)
      else some (insert import_path label labels)

  unfoldable pub add_file_label : Str → Label → Assoc Str Label → Option (Assoc Str Label)
  unfolding lookup insert is_declaration_file_type
  add_file_label import_path label labels =
      file_label_beside import_path label labels (lookup import_path labels)

  abbrev pub then_labels :
      Option (Assoc Str Label)
      → (Assoc Str Label → Option (Assoc Str Label))
      → Option (Assoc Str Label)
  then_labels none next = none
  then_labels (some labels) next = next labels

  -- The calls of addFileLabel for one import path, one after the other.
  unfoldable pub add_file_labels : Str → List Label → Assoc Str Label → Option (Assoc Str Label)
  unfolding add_file_label
  add_file_labels import_path [] labels = some labels
  add_file_labels import_path (l ∷ ls) labels =
      then_labels (add_file_label import_path l labels) (add_file_labels import_path ls)

  file_label_beside-declared :
      (p : Str) (l : Label) (labels labels' : Assoc Str Label) (o : Option Label)
      → lookup p labels ≡ o
      → file_label_beside p l labels o ≡ some labels'
      → declared (lookup p labels') ≡ (declared o || is_declaration l)
  file_label_beside-declared p l labels labels' none e h = inserted-declared p l labels labels' h
  file_label_beside-declared p l labels labels' (some x) e h =
      elim (Bool-cases (is_declaration x)) [
        | inr f ↦ rw f (inserted-declared p l labels labels' (rw f at h))
        | inl t ↦ elim (Bool-cases (is_declaration l && not (equal x l))) [
          | inl k ↦ absurd (none-some (rw (t, k) at h))
          | inr k ↦ rw t (
              subst (λ (m : Assoc Str Label). declared (lookup p m) ≡ true)
                (some-injective _ _ (rw (t, k) at h)) (ap declared e ∙ t))
        ]
      ]

  -- After the labels of some files are added for an import path, its label is that of a declaration
  -- file where it was, or where one of them is, whatever the order of the files.
  pub add_file_labels-declared :
      (p : Str) (ls : List Label) (labels labels' : Assoc Str Label)
      → add_file_labels p ls labels ≡ some labels'
      → declared (lookup p labels') ≡ (declared (lookup p labels) || any is_declaration ls)
  unfolding add_file_labels add_file_label
  add_file_labels-declared p [] labels labels' h =
      subst (λ (m : Assoc Str Label). declared (lookup p m) ≡ (declared (lookup p labels) || false))
        (some-injective _ _ h) (sym (or-false (declared (lookup p labels))))
  add_file_labels-declared p (l ∷ ls) labels labels' h =
      elim (Option-cases (file_label_beside p l labels (lookup p labels))) [
        | inl n ↦ absurd (none-some (rw n at h))
        | inr (m, e) ↦
            add_file_labels-declared p ls m labels' (rw e at h)
            ∙ ap (λ (b : Bool). b || any is_declaration ls)
                (file_label_beside-declared p l labels m (lookup p labels) refl e)
            ∙ or_assoc (declared (lookup p labels)) (is_declaration l) (any is_declaration ls)
      ]
