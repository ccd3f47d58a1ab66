-- ===== src/Pnpm/Nearest.antt =====
-- GetProject of language/js/pnpm/workspace.go along the directories of a path.
use aspect_gazelle.Base.{
  ℕ, zero, suc, ◌≤◌, ◌≡◌, refl, false, Option, none, some, List, [], ◌∷◌, ◌++◌, ◌==◌, list_eq,
  nat_eq, list_beq, Str, slash, trim_suffix, length, contains_byte, All, arith, inl, inr, eq_refl,
  and-false, Option-cases, ap, ◌∙◌,
}
use aspect_gazelle.Base.Assoc.{lookup}
use aspect_gazelle.GoPath.{split, dot}
use aspect_gazelle.GoPath.Dirs.{
  IsSegment, path_of, split-no_slash, split-append, trim_slash, length-path_of, path_of-ne,
}
use aspect_gazelle.Pnpm.{
  ProjectMap, Project, normalize_project, parent_path, get_project_loop, get_project,
}

normalize_slash : (a : Str) → normalize_project (a ++ slash ∷ []) ≡ a
unfolding normalize_project list_beq
normalize_slash [] = trim_slash []
normalize_slash (c ∷ []) = rw (and-false (c == dot)) (trim_slash (c ∷ []))
normalize_slash (c ∷ d ∷ a) = rw (and-false (c == dot)) (trim_slash (c ∷ d ∷ a))

-- The loop's step goes from the path of a directory to that of the one around it.
pub parent_path-path_of :
    (s : Str) (names : List Str)
    → contains_byte s slash ≡ false
    → parent_path (path_of (s ∷ names)) ≡ path_of names
unfolding parent_path normalize_project list_beq trim_suffix
parent_path-path_of s [] h = rw (split-no_slash s h)
parent_path-path_of s (t ∷ names) h =
    ap (λ (r : Str × Str). normalize_project r.0) (split-append (path_of (t ∷ names)) s h)
    ∙ normalize_slash (path_of (t ∷ names))

pub parent_path-nil : parent_path [] ≡ []
unfolding parent_path normalize_project list_beq trim_suffix split
parent_path-nil = refl

module _ {L : Type 0} where
  -- The project of the innermost directory, of those around and including this one, that has one.
  unfoldable pub nearest : ProjectMap L → List Str → Option (Project L)
  nearest pm [] = lookup [] pm.projects
  nearest pm (s ∷ names) = elim (lookup (path_of (s ∷ names)) pm.projects) [
    | some p ↦ some p
    | none ↦ nearest pm names
  ]

module _ {L : Type 0} (pm : ProjectMap L) where
  get_project_loop-nearest :
      (f : ℕ) (names : List Str)
      → All IsSegment names
      → length (path_of names) ≤ f
      → get_project_loop f pm (path_of names) ≡ nearest pm names
  unfolding get_project_loop nearest
  get_project_loop-nearest zero [] h b = refl
  get_project_loop-nearest zero (s ∷ names) h b =
      absurd (omega (arith, length-path_of s names h.0.nonempty))
  get_project_loop-nearest (suc f) [] h b = elim (Option-cases (lookup [] pm.projects)) [
    | inl n ↦ rw (n, get_project_loop, eq_refl {A = Str} [])
    | inr (p, e) ↦ rw (e, get_project_loop)
  ]
  get_project_loop-nearest (suc f) (s ∷ names) h b =
      elim (Option-cases (lookup (path_of (s ∷ names)) pm.projects)) [
        | inr (p, e) ↦ rw (e, get_project_loop, nearest)
        | inl n ↦ rw (
          n,
          get_project_loop,
          nearest,
          path_of-ne s names h.0.nonempty,
          parent_path-path_of s names h.0.no_slash,
          get_project_loop-nearest f names h.1 (omega (arith, length-path_of s names h.0.nonempty)),
        )
      ]

  -- On the path of a directory whose names are not empty and have no slash, GetProject returns the
  -- project of the nearest directory, from that one up to the root of the repository, that has a
  -- project, and none where there is none.
  pub get_project-nearest :
      (names : List Str) → All IsSegment names → get_project pm (path_of names) ≡ nearest pm names
  unfolding get_project
  get_project-nearest names h = get_project_loop-nearest _ names h (omega arith)
