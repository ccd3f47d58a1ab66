-- ===== src/Pnpm.antt =====
-- language/js/pnpm/workspace.go: the pnpm projects of a repository and the packages that they
-- depend on. A pointer to a project is its path, which is its key in the map; a pointer to a
-- workspace is its number. The type of labels is a parameter.
pub mod Lockfile
pub mod Nearest
pub mod Visible
pub mod References
pub mod Built
mod Witnesses
use aspect_gazelle.Base.{
  ℕ, zero, suc, ◌+◌, ◌≡◌, refl, Bool, true, false, Option, none, some, List, [], ◌∷◌, ◌++◌, ◌==◌,
  list_eq, nat_eq, list_beq, Str, codes, slash, has_prefix, trim_suffix, length, drop, get_elem?,
  if◌then◌else◌,
}
use aspect_gazelle.Base.Assoc.{Assoc, lookup, insert}
use aspect_gazelle.GoPath.{split, join, dir}

-- normalizeProject
unfoldable pub normalize_project : Str → Str
normalize_project project = if project == codes "." then [] else trim_suffix project (slash ∷ [])

pub record Workspace : Type 0 where
  pub lockfile : Str
  pub lockdir : Str
  pub referenced : Assoc Str Bool

module _ (L : Type 0) where
  pub record Project : Type 0 where
    pub workspace : ℕ
    pub project : Str
    pub references : Assoc Str Str
    pub packages : Assoc Str L

  pub record ProjectMap : Type 0 where
    pub workspaces : List Workspace
    pub projects : Assoc Str Project

abbrev pub new_project_map : {L : Type 0} → ProjectMap L
new_project_map = record { workspaces = []; projects = [] }

abbrev pub new_pnpm_workspace : Str → Workspace
new_pnpm_workspace lockfile = record {
  lockfile = lockfile;
  lockdir = dir lockfile;
  referenced = [];
}

abbrev pub update_at : {A : Type 0} → ℕ → (A → A) → List A → List A
update_at n f [] = []
update_at zero f (x ∷ xs) = f x ∷ xs
update_at (suc n) f (x ∷ xs) = x ∷ update_at n f xs

-- The next path that the loop of GetProject looks up.
unfoldable pub parent_path : Str → Str
parent_path project = normalize_project (split project).0

-- PnpmWorkspace.IsReferenced: a key that is not stored reads false.
unfoldable pub workspace_is_referenced : Workspace → Str → Bool
workspace_is_referenced w project = elim (lookup (normalize_project project) w.referenced) [
  | none ↦ false
  | some b ↦ b
]

abbrev pub refer_to : Str → Workspace → Workspace
refer_to target w = record w { referenced = insert (normalize_project target) true w.referenced }

module _ {L : Type 0} where
  unfoldable pub new_workspace : Str → ProjectMap L → ℕ × ProjectMap L
  new_workspace lockfile pm = (
    length pm.workspaces,
    record pm { workspaces = pm.workspaces ++ new_pnpm_workspace lockfile ∷ [] },
  )

  abbrev pub new_pnpm_project : ℕ → Workspace → Str → Project L
  new_pnpm_project n w project = record {
    workspace = n;
    project = normalize_project (join w.lockdir project);
    references = [];
    packages = [];
  }

  -- `none` where the program ends because the path has a project already.
  unfoldable pub add_project_to : ProjectMap L → Project L → Option (ProjectMap L)
  add_project_to pm p = elim (lookup p.project pm.projects) [
    | some existing ↦ none
    | none ↦ some (record pm { projects = insert p.project p pm.projects })
  ]

  -- PnpmWorkspace.AddProject: the new project's path, and the map with it.
  unfoldable pub add_project : ℕ → Workspace → Str → ProjectMap L → Option (Str × ProjectMap L)
  unfolding add_project_to
  add_project n w pkg pm =
      let p = new_pnpm_project n w pkg in
      elim (add_project_to pm p) [ none ↦ none | some pm' ↦ some (p.project, pm') ]

  -- The loop of GetProject, on fuel.
  unfoldable pub get_project_loop : ℕ → ProjectMap L → Str → Option (Project L)
  get_project_loop zero pm project = lookup project pm.projects
  get_project_loop (suc f) pm project =
      let above = get_project_loop f pm (parent_path project) in
      elim (lookup project pm.projects) [
        | some p ↦ some p
        | none ↦ if project == [] then none else above
      ]

  unfoldable pub get_project : ProjectMap L → Str → Option (Project L)
  get_project pm project = get_project_loop (length project) pm project

  unfoldable pub is_project : ProjectMap L → Str → Bool
  is_project pm project = elim (lookup (normalize_project project) pm.projects) [
    | none ↦ false
    | some p ↦ true
  ]

  -- PnpmProject.Parent; projects are the same where their paths are.
  unfoldable pub parent : ProjectMap L → Project L → Option (Project L)
  parent pm p = elim (get_project pm (parent_path p.project)) [
    | none ↦ none
    | some pp ↦ if pp.project == p.project then none else some pp
  ]

  -- The loop of PnpmProject.Get, on fuel.
  unfoldable pub get_loop : ℕ → ProjectMap L → Project L → Str → Option L
  get_loop zero pm p pkg = lookup pkg p.packages
  get_loop (suc f) pm p pkg = elim (lookup pkg p.packages) [
    | some l ↦ some l
    | none ↦ elim (parent pm p) [ none ↦ none | some pp ↦ get_loop f pm pp pkg ]
  ]

  unfoldable pub get : ProjectMap L → Project L → Str → Option L
  get pm p pkg = get_loop (length p.project) pm p pkg

  -- PnpmProjectMap.IsReferenced; `none` is the panic on a path without a project.
  unfoldable pub is_referenced : ProjectMap L → Str → Option Bool
  is_referenced pm project = elim (lookup (normalize_project project) pm.projects) [
    | none ↦ none
    | some p ↦ elim (get_elem? pm.workspaces p.workspace) [
      | none ↦ none
      | some w ↦ some (workspace_is_referenced w p.project)
    ]
  ]

  -- addLocalReference on the project at its path.
  unfoldable pub add_local_reference : Str → Str → Project L → ProjectMap L → ProjectMap L
  add_local_reference pkg dir p pm = record {
    workspaces = update_at p.workspace (refer_to dir) pm.workspaces;
    projects = insert p.project (record p { references = insert pkg dir p.references }) pm.projects;
  }

  -- The directory that a link: or file: version refers to.
  unfoldable pub local_directory : Workspace → Project L → Str → Option Str
  local_directory w p version =
      if has_prefix version (codes "link:")
      then some (join p.project (drop 5 version))
      else if has_prefix version (codes "file:")
      then some (join w.lockdir (drop 5 version))
      else none

  unfoldable pub add_package : Workspace → Str → Str → L → Project L → ProjectMap L → ProjectMap L
  add_package w pkg version label p pm =
      let p' = record p { packages = insert pkg label p.packages } in
      let pm' = record pm { projects = insert p.project p' pm.projects } in
      elim (local_directory w p' version) [
        | none ↦ pm'
        | some dir ↦ add_local_reference pkg dir p' pm'
      ]

  unfoldable pub get_local_reference : Project L → Str → Option Str
  get_local_reference p pkg = lookup pkg p.references

  -- findPackage of language/js/resolve.go
  unfoldable pub find_package : ProjectMap L → Str → Str → Option L
  find_package pm from imp_pkg = elim (get_project pm from) [
    | none ↦ none
    | some p ↦ get pm p imp_pkg
  ]
