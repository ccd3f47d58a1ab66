-- ===== src/Pnpm/Visible.antt =====
-- PnpmProject.Get and findPackage along the projects around a directory.
use aspect_gazelle.Base.{
  ℕ, zero, suc, ◌≤◌, ◌<◌, ◌≡◌, refl, false, Option, none, some, List, [], ◌∷◌, ◌==◌, list_eq,
  nat_eq, list_beq_iff, Str, length, if◌then◌else◌, All, arith, Bool-cases, Option-cases, inl, inr,
  ap, sym, ◌∙◌, eq_refl,
}
use aspect_gazelle.Base.Assoc.{lookup}
use aspect_gazelle.Pnpm.{
  ProjectMap, Project, parent_path, get_project, parent, get_loop, get, find_package,
}
use aspect_gazelle.GoPath.Dirs.{IsSegment, path_of, length-path_of}
use aspect_gazelle.Pnpm.Nearest.{nearest, parent_path-nil, get_project-nearest, parent_path-path_of}

module _ {L : Type 0} where
  -- Every project stands in the map under its own path.
  abbrev pub IsWellKeyed : ProjectMap L → Type 0
  IsWellKeyed pm = (k : Str) (p : Project L) → lookup k pm.projects ≡ some p → p.project ≡ k

  -- The package in the project of a directory, if there is one and it has the package.
  abbrev pub package_at : ProjectMap L → Str → Str → Option L
  package_at pm dir pkg = elim (lookup dir pm.projects) [
    | none ↦ none
    | some p ↦ lookup pkg p.packages
  ]

  -- As node looks for node_modules: in the directory, and then in each directory around it.
  pub visible : ProjectMap L → List Str → Str → Option L
  visible pm [] pkg = package_at pm [] pkg
  visible pm (s ∷ names) pkg = elim (package_at pm (path_of (s ∷ names)) pkg) [
    | some l ↦ some l
    | none ↦ visible pm names pkg
  ]

abbrev other_than : {L : Type 0} → Str → Option (Project L) → Option (Project L)
other_than path none = none
other_than path (some pp) = if pp.project == path then none else some pp

longer_ne : (a b : Str) → length a < length b → (a == b) ≡ false
longer_ne a b h = elim (Bool-cases (a == b)) [
  | inr n ↦ n
  | inl e ↦ absurd (omega (arith, ap length ((list_beq_iff a b).0 e)))
]

module _ {L : Type 0} (pm : ProjectMap L) (pkg : Str) where
  -- The directory of the nearest project, from which on the same packages are visible.
  record Found (names : List Str) (p : Project L) : Type 0 where
    at : List Str
    segments : All IsSegment at
    stored : lookup (path_of at) pm.projects ≡ some p
    shorter : length (path_of at) ≤ length (path_of names)
    same : visible pm names pkg ≡ visible pm at pkg

  nearest-none : (names : List Str) → nearest pm names ≡ none → visible pm names pkg ≡ none
  unfolding nearest visible
  nearest-none [] h = let e : lookup [] pm.projects ≡ none = h in rw (e, visible, package_at)
  nearest-none (s ∷ names) h = elim (Option-cases (lookup (path_of (s ∷ names)) pm.projects)) [
    | inl n ↦ rw (n, visible, package_at) (nearest-none names (rw (n, nearest) at h))
    | inr (p, e) ↦ cc (rw (e, nearest) at h)
  ]

  nearest-Found :
      (names : List Str) (p : Project L)
      → All IsSegment names
      → nearest pm names ≡ some p
      → Found names p
  unfolding nearest visible
  nearest-Found [] p h e = record {
    at = [];
    segments = tt;
    stored = e;
    shorter = omega arith;
    same = refl;
  }
  nearest-Found (s ∷ names) p h e = elim (Option-cases (lookup (path_of (s ∷ names)) pm.projects)) [
    | inr (q, f) ↦ record {
      at = s ∷ names;
      segments = h;
      stored = f ∙ (rw (f, nearest) at e);
      shorter = omega arith;
      same = refl;
    }
    | inl n ↦
        let found = nearest-Found names p h.1 (rw (n, nearest) at e) in
        let below = length-path_of s names h.0.nonempty in
        record {
          at = found.at;
          segments = found.segments;
          stored = found.stored;
          shorter = omega arith;
          same = rw (n, visible, package_at) found.same;
        }
  ]

  module _ (well_keyed : IsWellKeyed pm) where
    -- Parent looks where the project's path says.
    parent-stored :
        (path : Str) (p : Project L) (above : Option (Project L))
        → lookup path pm.projects ≡ some p
        → get_project pm (parent_path path) ≡ above
        → parent pm p ≡ other_than path above
    unfolding parent
    parent-stored path p above e h =
        ap (λ (k : Str). parent_from k) (well_keyed path p e) ∙ ap (other_than path) h
      where
        parent_from : Str → Option (Project L)
        parent_from k = other_than k (get_project pm (parent_path k))

    -- The root project is its own nearest project, which Parent leaves out.
    parent-root : (p : Project L) → lookup [] pm.projects ≡ some p → parent pm p ≡ none
    unfolding nearest
    parent-root p e =
        parent-stored [] p (some p) e
          (ap (get_project pm) parent_path-nil ∙ get_project-nearest pm [] tt ∙ e)
        ∙ rw (well_keyed [] p e, eq_refl {A = Str} [])

    parent-nearest :
        (s : Str) (names : List Str) (p : Project L)
        → All IsSegment (s ∷ names)
        → lookup (path_of (s ∷ names)) pm.projects ≡ some p
        → parent pm p ≡ nearest pm names
    parent-nearest s names p h e =
        parent-stored (path_of (s ∷ names)) p (nearest pm names) e (
          ap (get_project pm) (parent_path-path_of s names h.0.no_slash)
          ∙ get_project-nearest pm names h.1)
        ∙ other (nearest pm names) refl
      where
        other :
            (o : Option (Project L)) → nearest pm names ≡ o → other_than (path_of (s ∷ names)) o ≡ o
        other none q = refl
        other (some pp) q =
            let found = nearest-Found names pp h.1 q in
            rw (
              longer_ne pp.project (path_of (s ∷ names)) (
                omega (
                  arith,
                  length-path_of s names h.0.nonempty,
                  found.shorter,
                  ap length (well_keyed (path_of found.at) pp found.stored),
                )))

    get_loop-visible :
        (f : ℕ) (names : List Str) (p : Project L)
        → All IsSegment names
        → lookup (path_of names) pm.projects ≡ some p
        → length (path_of names) ≤ f
        → get_loop f pm p pkg ≡ visible pm names pkg
    unfolding get_loop visible
    get_loop-visible zero [] p h e b = rw (e, visible, package_at)
    get_loop-visible zero (s ∷ names) p h e b =
        absurd (omega (arith, length-path_of s names h.0.nonempty))
    get_loop-visible (suc f) [] p h e b = elim (Option-cases (lookup pkg p.packages)) [
      | inl n ↦ rw (e, visible, package_at, n, get_loop, parent-root p e)
      | inr (l, q) ↦ rw (e, visible, package_at, q, get_loop)
    ]
    get_loop-visible (suc f) (s ∷ names) p h e b = elim (Option-cases (lookup pkg p.packages)) [
      | inr (l, q) ↦ rw (e, visible, package_at, q, get_loop)
      | inl n ↦ elim (Option-cases (nearest pm names)) [
        | inl none_above ↦ rw (
          n,
          get_loop,
          parent-nearest s names p h e,
          none_above,
          e,
          visible,
          package_at,
          n,
          nearest-none names none_above,
        )
        | inr (pp, q) ↦
            let found = nearest-Found names pp h.1 q in
            rw (n, get_loop, parent-nearest s names p h e, q, e, visible, package_at, n, found.same)
              (get_loop-visible f found.at pp found.segments found.stored
                (omega (arith, length-path_of s names h.0.nonempty, found.shorter)))
      ]
    ]

module _ {L : Type 0} (pm : ProjectMap L) (pkg : Str) where
  -- In a map where every project stands under its path, and for the path of a directory whose names
  -- are not empty and have no slash, findPackage finds the package of the nearest
  -- enclosing project that has it, past the projects that do not, as node looks for node_modules;
  -- and none where no enclosing project has it. Both loops end in their fuel.
  pub find_package-visible :
      (names : List Str)
      → IsWellKeyed pm
      → All IsSegment names
      → find_package pm (path_of names) pkg ≡ visible pm names pkg
  unfolding find_package get
  find_package-visible names k h = elim (Option-cases (nearest pm names)) [
    | inl n ↦
        rw (get_project-nearest pm names h, n, find_package) (sym (nearest-none pm pkg names n))
    | inr (p, q) ↦
        let found = nearest-Found pm pkg names p h q in
        rw (get_project-nearest pm names h, q, find_package)
          (get_loop-visible pm pkg k (length p.project) found.at p found.segments found.stored
              (omega (arith, ap length (k (path_of found.at) p found.stored)))
            ∙ sym found.same)
  ]
