-- ===== src/Pnpm/Built.antt =====
-- The maps that NewPnpmProjectMap, NewWorkspace, AddProject and AddPackage make.
use aspect_gazelle.Base.{ℕ, ◌≡◌, some, Str, list_eq, nat_eq, Option-cases, inl, inr, subst}
use aspect_gazelle.Base.Assoc.{lookup, insert}
use aspect_gazelle.Pnpm.{
  ProjectMap, Project, Workspace, new_project_map, new_workspace, add_project, add_project_to,
  new_pnpm_project, add_package,
}
use aspect_gazelle.Pnpm.Visible.{IsWellKeyed}
use aspect_gazelle.Pnpm.References.{IsWellKeyed-insert, add_package-IsWellKeyed}

pub data Built {L : Type 0} : ProjectMap L → Type 0 where
  empty : Built new_project_map
  with_workspace :
      {pm : ProjectMap L} (lockfile : Str) → Built pm → Built (new_workspace lockfile pm).1
  with_project :
      {pm after : ProjectMap L} (n : ℕ) (w : Workspace) (pkg path : Str)
      → add_project n w pkg pm ≡ some (path, after)
      → Built pm
      → Built after
  with_package :
      {pm : ProjectMap L} (w : Workspace) (pkg version : Str) (label : L) (p : Project L)
      → Built pm
      → Built (add_package w pkg version label p pm)

module _ {L : Type 0} where
  add_project-IsWellKeyed :
      (n : ℕ) (w : Workspace) (pkg path : Str) (pm after : ProjectMap L)
      → add_project n w pkg pm ≡ some (path, after)
      → IsWellKeyed pm
      → IsWellKeyed after
  unfolding add_project add_project_to
  add_project-IsWellKeyed n w pkg path pm after h k =
      let p : Project L = new_pnpm_project n w pkg in
      elim (Option-cases (lookup p.project pm.projects)) [
        | inr (existing, found) ↦ cc (rw (add_project, add_project_to, found) at h)
        | inl free ↦
            let added : some (p.project, record pm { projects = insert p.project p pm.projects })
                ≡ some (path, after) =
              rw (add_project, add_project_to, free) at h in
            let same : record pm { projects = insert p.project p pm.projects } ≡ after = cc in
            subst IsWellKeyed same (IsWellKeyed-insert pm p pm.workspaces k)
      ]

  -- Every map that these operations make, in any order, has every project under its own path.
  pub Built-IsWellKeyed : (pm : ProjectMap L) → Built pm → IsWellKeyed pm
  unfolding lookup new_workspace
  Built-IsWellKeyed pm Built.empty = λ k p h. cc (h)
  Built-IsWellKeyed pm (Built.with_workspace {pm = before} lockfile b) = Built-IsWellKeyed before b
  Built-IsWellKeyed pm (Built.with_project {pm = before} n w pkg path h b) =
      add_project-IsWellKeyed n w pkg path before pm h (Built-IsWellKeyed before b)
  Built-IsWellKeyed pm (Built.with_package {pm = before} w pkg version label p b) =
      add_package-IsWellKeyed w pkg version label p before (Built-IsWellKeyed before b)
