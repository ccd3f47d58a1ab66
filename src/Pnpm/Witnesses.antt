-- ===== src/Pnpm/Witnesses.antt =====
-- The theorems on pnpm projects at a repository with a project at its root and one in `a/b`.
use aspect_gazelle.Base.{
  String, ◌≡◌, refl, some, List, [], ◌∷◌, Str, codes, list_eq, nat_eq, Bool-cases, inl, inr, ◌==◌,
  list_beq_iff, All, contains_byte, has_prefix, arith,
}
use aspect_gazelle.Base.Assoc.{Assoc, lookup}
use aspect_gazelle.GoPath.{join, clean}
use aspect_gazelle.Pnpm.{
  new_project_map, new_workspace, ProjectMap, Project, Workspace, find_package, add_package,
  local_directory,
}
use aspect_gazelle.GoPath.Dirs.{IsSegment}
use aspect_gazelle.Pnpm.Visible.{IsWellKeyed, visible, find_package-visible}

abbrev project_at : Str → Assoc Str String → Project String
project_at path packages = record {
  workspace = 0;
  project = path;
  references = [];
  packages = packages;
}

abbrev root_project : Project String
root_project = project_at [] ((codes "react", "//:node_modules/react") ∷ [])

abbrev nested_project : Project String
nested_project = project_at (codes "a/b") ((codes "lodash", "//a/b:node_modules/lodash") ∷ [])

abbrev workspace : Workspace
workspace = record { lockfile = codes "pnpm-lock.yaml"; lockdir = []; referenced = [] }

abbrev two_projects : ProjectMap String
two_projects = record {
  workspaces = workspace ∷ [];
  projects = ([], root_project) ∷ (codes "a/b", nested_project) ∷ [];
}

two_projects-IsWellKeyed : IsWellKeyed two_projects
unfolding lookup
two_projects-IsWellKeyed k p h = elim (Bool-cases ([] == k)) [
  | inl root ↦ cc (rw root at h, (list_beq_iff [] k).0 root)
  | inr not_root ↦ elim (Bool-cases (codes "a/b" == k)) [
    | inl nested ↦ cc (rw (not_root, nested) at h, (list_beq_iff (codes "a/b") k).0 nested)
    | inr other ↦ cc (rw (not_root, other) at h)
  ]
]

-- The directories of `a/b/src`, innermost first.
abbrev source_names : List Str
source_names = codes "src" ∷ codes "b" ∷ codes "a" ∷ []

source_names-IsSegment : All IsSegment source_names
unfolding contains_byte
source_names-IsSegment = (
  record { nonempty = omega arith; no_slash = refl },
  (
    record { nonempty = omega arith; no_slash = refl },
    (record { nonempty = omega arith; no_slash = refl }, tt),
  ),
)

find_package-visible_example :
    find_package two_projects (codes "a/b/src") (codes "react")
    ≡ visible two_projects source_names (codes "react")
find_package-visible_example =
    find_package-visible two_projects (codes "react") source_names two_projects-IsWellKeyed
      source_names-IsSegment

abbrev built_map : ProjectMap String
built_map =
    add_package workspace (codes "@s/lib") (codes "link:../lib") "//a/b:node_modules/@s/lib"
      nested_project (new_workspace (codes "pnpm-lock.yaml") new_project_map).1

linked_directory :
    local_directory workspace nested_project (codes "link:../lib") ≡ some (codes "a/lib")
unfolding local_directory has_prefix join clean
linked_directory = refl
