-- ===== src/Resolve/Scope.antt =====
-- The package.json of a directory, and the packages that its imports mean.
use aspect_gazelle.Base.{
  ℕ, zero, suc, ◌≤◌, ◌≡◌, refl, ◌∙◌, Bool, true, false, Option, none, some, List, [], ◌∷◌, ◌++◌,
  ◌==◌, list_eq, nat_eq, Str, length, All, if◌then◌else◌, Bool-cases, inl, inr, arith, append-nil,
}
use aspect_gazelle.GoPath.Dirs.{
  IsSegment, path_of, length-path_of, path_of-ne, parent_dir-path_of, nearest_dir,
}
use aspect_gazelle.JsConfig.{JsGazelleConfig}
use aspect_gazelle.JsConfig.Directives.Setters.{proto_aspect_enabled}
use aspect_gazelle.Labels.{Label}
use aspect_gazelle.Node.{parse_import_path, is_subpath_import}
use aspect_gazelle.Pnpm.Visible.{IsWellKeyed, visible, find_package-visible}
use aspect_gazelle.Resolve.{RuleIndex, language_name}
use aspect_gazelle.Resolve.Packages.{
  has_dir, package_scope_loop, package_scope_dir, PackageLookup, label_result,
  find_package_self_reference, find_package_import, cross_resolve,
}

abbrev pub marked : List Str → Str → Option Bool
marked dirs dir = if has_dir dirs dir then some true else none

abbrev pub dir_of : Option (Str × Bool) → Option Str
dir_of none = none
dir_of (some (dir, found)) = some dir

package_scope_loop-nearest :
    (dirs : List Str) (f : ℕ) (names : List Str)
    → All IsSegment names
    → length (path_of names) ≤ f
    → package_scope_loop f dirs (path_of names) ≡ dir_of (nearest_dir (marked dirs) names)
unfolding package_scope_loop
package_scope_loop-nearest dirs zero [] h b = elim (Bool-cases (has_dir dirs [])) [
  | inl t ↦ rw t refl
  | inr n ↦ rw n refl
]
package_scope_loop-nearest dirs zero (s ∷ names) h b =
    absurd (omega (arith, length-path_of s names h.0.nonempty, b))
package_scope_loop-nearest dirs (suc f) [] h b = elim (Bool-cases (has_dir dirs [])) [
  | inl t ↦ rw t refl
  | inr n ↦ rw n refl
]
package_scope_loop-nearest dirs (suc f) (s ∷ names) h b =
    elim (Bool-cases (has_dir dirs (path_of (s ∷ names)))) [
      | inl t ↦ rw t refl
      | inr n ↦
          rw (n, path_of-ne s names h.0.nonempty, parent_dir-path_of s names h.0.no_slash)
            (package_scope_loop-nearest dirs f names h.1
              (omega (arith, b, length-path_of s names h.0.nonempty)))
    ]

-- For the path of a directory whose names are not empty and have no slash, packageScopeDir returns the
-- innermost directory, from that one up to the root, that has a package.json.
pub package_scope_dir-nearest :
    (dirs names : List Str)
    → All IsSegment names
    → package_scope_dir dirs (path_of names) ≡ dir_of (nearest_dir (marked dirs) names)
unfolding package_scope_dir
package_scope_dir-nearest dirs names h = package_scope_loop-nearest dirs _ names h (omega arith)

-- CrossResolve for an import, from a js file, of a package that the importing package does not export
-- itself, where the plugin for protos is not enabled: the result is the label of the package in the
-- innermost pnpm project around the directory that has it, as node looks for node_modules.
pub cross_resolve-visible :
    (ix : RuleIndex) (ts : PackageLookup) (cfg : JsGazelleConfig Label) (names : List Str)
    (imp pkg sub : Str)
    → IsWellKeyed ts.pnpm_projects
    → All IsSegment names
    → is_subpath_import imp ≡ false
    → parse_import_path imp ≡ (pkg, sub)
    → (pkg == []) ≡ false
    → find_package_self_reference ix ts (path_of names) pkg sub ≡ []
    → proto_aspect_enabled cfg.own ≡ false
    → cross_resolve ix ts cfg
        (path_of names)
        (record { lang = language_name; imp = imp })
        language_name
      ≡ label_result (visible ts.pnpm_projects names pkg)
unfolding cross_resolve find_package_import
cross_resolve-visible ix ts cfg names imp pkg sub keyed h bare parsed named own no_proto =
    let found = label_result (visible ts.pnpm_projects names pkg) in
    rw (bare, parsed, named, own, no_proto, find_package-visible ts.pnpm_projects pkg names keyed h)
      (append-nil (found ++ []) ∙ append-nil found)
