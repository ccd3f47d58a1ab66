-- ===== src/Node/Laws.antt =====
-- How the parts of an import path make up the import.
use aspect_gazelle.Base.{
  ℕ, ◌≡◌, refl, false, none, some, [], ◌∷◌, ◌++◌, ◌==◌, nat_eq, ◌||◌, arith, Str, slash, cut,
  contains_byte, append_assoc, ◌⊎◌, inl, inr, Bool-cases, Option-cases, eq_refl, or-eq_false,
}
use aspect_gazelle.Node.{at_sign, parse_import_path, scoped, unscoped}

pub cut-some :
    (s : Str) (c : ℕ) (before after : Str)
    → cut s c ≡ some (before, after)
    → (s ≡ before ++ c ∷ after) × (contains_byte before c ≡ false)
unfolding cut contains_byte
cut-some [] c b a h = cc
cut-some (x ∷ s) c b a h = elim (Bool-cases (x == c)) [
  | inl e ↦ ground (arith, (rw e at h))
  | inr n ↦ elim (Option-cases (cut s c)) [
    | inl missing ↦ cc (rw (n, missing) at h)
    | inr ((b', a'), found) ↦ ground (arith, (rw (n, found) at h), cut-some s c b' a' found)
  ]
]

pub cut-none : (s : Str) (c : ℕ) → cut s c ≡ none → contains_byte s c ≡ false
unfolding cut contains_byte
cut-none [] c h = refl
cut-none (x ∷ s) c h = ground (arith, cut-none s c)

pub cut-append :
    (before after : Str) (c : ℕ)
    → contains_byte before c ≡ false
    → cut (before ++ c ∷ after) c ≡ some (before, after)
unfolding cut contains_byte
cut-append [] after c h = rw (eq_refl c)
cut-append (x ∷ before) after c h =
    let (n, rest) = or-eq_false (x == c) _ h in rw (n, cut-append before after c rest)

pub cut-absent : (s : Str) (c : ℕ) → contains_byte s c ≡ false → cut s c ≡ none
unfolding cut contains_byte
cut-absent [] c h = refl
cut-absent (x ∷ s) c h = let (n, rest) = or-eq_false (x == c) _ h in rw (n, cut-absent s c rest)

-- The package and the path of an import: all of it is path where it is no package; or all of it is
-- the package; or it is the package, a slash and the path.
abbrev pub Splits : Str → Str × Str → Type 0
Splits imp (pkg, sub) =
    ((pkg ≡ []) × (sub ≡ imp)) ⊎ ((pkg ≡ imp) × (sub ≡ [])) ⊎ (imp ≡ pkg ++ slash ∷ sub)

Splits-scoped : (imp : Str) → Splits imp (scoped imp (cut imp slash))
Splits-scoped imp = elim (Option-cases (cut imp slash)) [
  | inl missing ↦ rw missing (inl (refl, refl))
  | inr ((scope, rest), found) ↦ elim (Option-cases (cut rest slash)) [
    | inl alone ↦ rw (found, alone) (inr (inl (refl, refl)))
    | inr ((name, sub), e) ↦
        rw (found, e)
          (inr (
            inr (
              cc (
                (cut-some imp slash scope rest found).0,
                (cut-some rest slash name sub e).0,
                append_assoc scope (slash ∷ name) (slash ∷ sub),
              ))))
  ]
]

Splits-unscoped : (imp : Str) → Splits imp (unscoped imp (cut imp slash))
Splits-unscoped imp = elim (Option-cases (cut imp slash)) [
  | inl missing ↦ rw missing (inr (inl (refl, refl)))
  | inr ((before, after), found) ↦ rw found (inr (inr (cut-some imp slash before after found).0))
]

-- Nothing of an import is lost or made up, whatever the import is.
pub parse_import_path-Splits : (imp : Str) → Splits imp (parse_import_path imp)
unfolding parse_import_path
parse_import_path-Splits [] = inl (refl, refl)
parse_import_path-Splits (c ∷ s) = elim (Bool-cases (c == slash || c == b'.')) [
  | inl path ↦ rw path (inl (refl, refl))
  | inr n ↦ elim (Bool-cases (c == at_sign)) [
    | inl scope ↦ rw (n, scope) (Splits-scoped (c ∷ s))
    | inr plain ↦ rw (n, plain) (Splits-unscoped (c ∷ s))
  ]
]

-- The name of an npm package: without a slash, or a scope that begins with `@` and a name.
pub data IsPackageName : Str → Type 0 where
  plain :
      (c : ℕ) (s : Str)
      → (c == slash || c == b'.') ≡ false
      → (c == at_sign) ≡ false
      → contains_byte (c ∷ s) slash ≡ false
      → IsPackageName (c ∷ s)
  in_scope :
      (scope name : Str)
      → contains_byte scope slash ≡ false
      → contains_byte name slash ≡ false
      → IsPackageName (at_sign ∷ scope ++ slash ∷ name)

-- An import of a package, or of a path within a package, is taken apart into just these.
pub parse_import_path-IsPackageName :
    (pkg sub : Str)
    → IsPackageName pkg
    → (parse_import_path pkg ≡ (pkg, [])) × (parse_import_path (pkg ++ slash ∷ sub) ≡ (pkg, sub))
unfolding parse_import_path contains_byte
parse_import_path-IsPackageName pkg sub (IsPackageName.plain c s n a h) =
    (rw (n, a, cut-absent (c ∷ s) slash h), rw (n, a, cut-append (c ∷ s) sub slash h))
parse_import_path-IsPackageName pkg sub (IsPackageName.in_scope scope name hs hn) = (
  rw (cut-append (at_sign ∷ scope) name slash hs, cut-absent name slash hn),
  rw (
    append_assoc scope (slash ∷ name) (slash ∷ sub),
    cut-append (at_sign ∷ scope) (name ++ slash ∷ sub) slash hs,
    cut-append name sub slash hn,
  ),
)
