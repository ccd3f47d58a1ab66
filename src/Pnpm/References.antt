-- ===== src/Pnpm/References.antt =====
-- AddPackage of language/js/pnpm/workspace.go: the keys of the map, and links to directories.
use aspect_gazelle.Base.{
  ℕ, zero, suc, ◌≡◌, refl, true, Option, some, List, [], ◌∷◌, ◌==◌, list_eq, nat_eq, list_beq_iff,
  Str, Bool-cases, Option-cases, inl, inr, get_elem?,
}
use aspect_gazelle.Base.Assoc.{lookup, insert, lookup-insert, lookup-insert_self}
use aspect_gazelle.Pnpm.{
  ProjectMap, Project, Workspace, normalize_project, add_package, add_local_reference,
  local_directory, workspace_is_referenced, update_at, refer_to, get_local_reference,
}
use aspect_gazelle.Pnpm.Visible.{IsWellKeyed}

get_elem?-update_at :
    {A : Type 0} (n : ℕ) (f : A → A) (xs : List A) (x : A)
    → get_elem? xs n ≡ some x
    → get_elem? (update_at n f xs) n ≡ some (f x)
get_elem?-update_at n f [] x e = cc
get_elem?-update_at zero f (y ∷ xs) x e = cc
get_elem?-update_at (suc n) f (y ∷ xs) x e = get_elem?-update_at n f xs x e

module _ {L : Type 0} where
  pub IsWellKeyed-insert :
      (pm : ProjectMap L) (p : Project L) (ws : List Workspace)
      → IsWellKeyed pm
      → IsWellKeyed (record { workspaces = ws; projects = insert p.project p pm.projects })
  IsWellKeyed-insert pm p ws k key q e = elim (Bool-cases (p.project == key)) [
    | inl same ↦
        let found : ◌≡◌ {A = Option (Project L)} (some p) (some q) =
          rw (lookup-insert, same) at e in
        cc (found, (list_beq_iff p.project key).0 same)
    | inr other ↦ k key q (rw (lookup-insert, other) at e)
  ]

  local_directory-packages :
      (w : Workspace) (pkg version : Str) (label : L) (p : Project L)
      → local_directory w (record p { packages = insert pkg label p.packages }) version
        ≡ local_directory w p version
  unfolding local_directory
  local_directory-packages w pkg version label p = refl

  -- Adding a package keeps every project under its own path.
  pub add_package-IsWellKeyed :
      (w : Workspace) (pkg version : Str) (label : L) (p : Project L) (pm : ProjectMap L)
      → IsWellKeyed pm
      → IsWellKeyed (add_package w pkg version label p pm)
  unfolding add_package add_local_reference
  add_package-IsWellKeyed w pkg version label p pm k =
      let p1 : Project L = record p { packages = insert pkg label p.packages } in
      let k1 = IsWellKeyed-insert pm p1 pm.workspaces k in
      elim (Option-cases (local_directory w p version)) [
        | inl n ↦ rw (local_directory-packages w pkg version label p, n, add_package) k1
        | inr (target, e) ↦
            rw (local_directory-packages w pkg version label p, e, add_package)
              (IsWellKeyed-insert (record pm { projects = insert p.project p1 pm.projects })
                (record p1 { references = insert pkg target p1.references })
                (update_at p.workspace (refer_to target) pm.workspaces) k1)
      ]

  -- What a package with a link: or file: version leaves behind.
  pub record IsLinked (pm : ProjectMap L) (path : Str) (n : ℕ) (pkg : Str) (label : L)
      (target : Str) : Type 0 where
    pub project : Project L
    pub workspace : Workspace
    pub stored : lookup path pm.projects ≡ some project
    pub packaged : lookup pkg project.packages ≡ some label
    pub recorded : get_local_reference project pkg ≡ some target
    pub numbered : get_elem? pm.workspaces n ≡ some workspace
    pub flagged : workspace_is_referenced workspace target ≡ true

  -- A package whose version refers to a directory, added to a project of a workspace that the map
  -- has, is stored in the project with the reference, and the directory counts as referenced.
  pub add_package-IsLinked :
      (w : Workspace) (pkg version : Str) (label : L) (p : Project L) (pm : ProjectMap L)
      (target : Str)
      → local_directory w p version ≡ some target
      → get_elem? pm.workspaces p.workspace ≡ some w
      → IsLinked (add_package w pkg version label p pm) p.project p.workspace pkg label target
  unfolding add_package add_local_reference workspace_is_referenced get_local_reference
  add_package-IsLinked w pkg version label p pm target d e =
      rw (local_directory-packages w pkg version label p, d, add_package)
        (record {
          project = record p {
            packages = insert pkg label p.packages;
            references = insert pkg target p.references;
          };
          workspace = refer_to target w;
          stored = lookup-insert_self p.project _ _;
          packaged = lookup-insert_self pkg label p.packages;
          recorded = lookup-insert_self pkg target p.references;
          numbered = get_elem?-update_at p.workspace (refer_to target) pm.workspaces w e;
          flagged = rw (
            lookup-insert_self (normalize_project target) true w.referenced,
            workspace_is_referenced,
          );
        })
