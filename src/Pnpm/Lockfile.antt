-- ===== src/Pnpm/Lockfile.antt =====
-- language/js/pnpm/parser.go, parser_v5.go, parser_v6.go and parser_v9.go: the dependencies of the
-- projects of a lockfile. What bufio reads as the first line, the major version that semver gives and
-- what yaml decodes are parameters.
use aspect_gazelle.Base.{
  ℕ, ◌≡◌, refl, ◌∙◌, Bool, Option, none, some, [], ◌∷◌, ◌++◌, ◌==◌, ◌&&◌, ◌||◌, nat_eq, list_eq,
  Str, codes, has_prefix, drop, length, leb, if◌then◌else◌, arith,
}
use aspect_gazelle.Base.Assoc.{Assoc, lookup, insert, lookup-insert}
use aspect_gazelle.Base.Exec.{Result, ok, err}

-- The first line, as ReadLine gives it.
pub data FirstLine : Type 0 where
  too_long at_end read_failed : FirstLine
  line : Str → FirstLine

pub data LockfileError : Type 0 where
  line_too_long version_not_read version_not_found version_not_parsed : LockfileError
  unsupported_version parse_error : LockfileError

abbrev pub is_digit : ℕ → Bool
is_digit c = leb 48 c && leb c 57

-- The white space of `\s`.
abbrev pub is_regex_space : ℕ → Bool
is_regex_space c = c == 32 || c == 9 || c == 10 || c == 12 || c == 13

unfoldable pub skip_spaces : Str → Str
skip_spaces [] = []
skip_spaces (c ∷ s) = let rest = skip_spaces s in if is_regex_space c then rest else c ∷ s

-- The longest run of digits, and the rest.
unfoldable pub digits : Str → Str × Str
digits [] = ([], [])
digits (c ∷ s) = let rest = digits s in if is_digit c then (c ∷ rest.0, rest.1) else ([], c ∷ s)

abbrev pub skip_quote : Str → Str
skip_quote [] = []
skip_quote (c ∷ s) = if c == 39 then s else c ∷ s

abbrev pub with_minor : Str → Str × Str → Option Str
with_minor major ([], rest) = none
with_minor major (c ∷ minor, rest) = some (major ++ b'.' ∷ c ∷ minor)

abbrev pub after_major : Str × Str → Option Str
after_major ([], rest) = none
after_major (c ∷ major, []) = none
after_major (c ∷ major, d ∷ rest) = if d == b'.' then with_minor (c ∷ major) (digits rest) else none

-- The group of lockVersionRegex
unfoldable pub lock_version : Str → Option Str
unfolding skip_spaces digits
lock_version s =
    let rest = skip_spaces s in
    if has_prefix rest (codes "lockfileVersion: ")
    then after_major (digits (skip_quote (drop (length (codes "lockfileVersion: ")) rest)))
    else none

-- parsePnpmLockVersion; at the end of the file there is no version, and no error.
unfoldable pub parse_pnpm_lock_version : FirstLine → Result LockfileError (Option Str)
unfolding lock_version
parse_pnpm_lock_version too_long = err line_too_long
parse_pnpm_lock_version at_end = ok none
parse_pnpm_lock_version read_failed = err version_not_read
parse_pnpm_lock_version (line s) = elim (lock_version s) [
  | none ↦ err version_not_found
  | some version ↦ ok (some version)
]

-- The four sets of dependencies of a project: packages, and what their entries are.
pub record Dependencies (V : Type 0) : Type 0 where
  pub dependencies : Assoc Str V
  pub dev_dependencies : Assoc Str V
  pub peer_dependencies : Assoc Str V
  pub optional_dependencies : Assoc Str V

-- The decoded file: its own sets, and the importers of a workspace.
pub record Lockfile (V : Type 0) : Type 0 where
  pub own : Dependencies V
  pub importers : Option (Assoc Str (Dependencies V))

module _ {V : Type 0} (version_of : V → Str) where
  -- `for k, v := range m { result[k] = … }`
  unfoldable pub copy_versions : Assoc Str V → Assoc Str Str → Assoc Str Str
  copy_versions [] result = result
  copy_versions ((k, v) ∷ m) result = copy_versions m (insert k (version_of v) result)

  -- mergeDependenciesV5, where a version is a text, and mergeDependenciesV6, where it is a field
  unfoldable pub merge_dependencies : Dependencies V → Assoc Str Str
  unfolding copy_versions
  merge_dependencies d = copy_versions d.optional_dependencies (
      copy_versions d.peer_dependencies
        (copy_versions d.dev_dependencies (copy_versions d.dependencies [])))

  unfoldable pub merge_importers : Assoc Str (Dependencies V) → Assoc Str (Assoc Str Str)
  unfolding merge_dependencies
  merge_importers [] = []
  merge_importers ((pkg, d) ∷ importers) =
      insert pkg (merge_dependencies d) (merge_importers importers)

  abbrev pub projects_of :
      Dependencies V → Option (Assoc Str (Dependencies V)) → Assoc Str (Assoc Str Str)
  projects_of d none = (codes ".", merge_dependencies d) ∷ []
  projects_of d (some importers) = merge_importers importers

  -- parsePnpmLockDependenciesV5 and V6 of what yaml decodes: none is the end of the file.
  abbrev pub parse_decoded :
      Result LockfileError (Option (Lockfile V))
      → Result LockfileError (Option (Assoc Str (Assoc Str Str)))
  parse_decoded (err e) = err parse_error
  parse_decoded (ok none) = ok none
  parse_decoded (ok (some l)) = ok (some (projects_of l.own l.importers))

module _ {V : Type 0} (version_of : V → Str) (major : Str → Option ℕ)
    (decoded_v5 : Result LockfileError (Option (Lockfile Str)))
    (decoded_v6 : Result LockfileError (Option (Lockfile V))) where
  abbrev pub parse_version : Option ℕ → Result LockfileError (Option (Assoc Str (Assoc Str Str)))
  parse_version none = err version_not_parsed
  parse_version (some n) =
      if n == 5
      then parse_decoded (λ (v : Str). v) decoded_v5
      else if n == 6 || n == 9
      then parse_decoded version_of decoded_v6
      else err unsupported_version

  abbrev pub with_version :
      Result LockfileError (Option Str) → Result LockfileError (Option (Assoc Str (Assoc Str Str)))
  with_version (err e) = err e
  with_version (ok none) = ok none
  with_version (ok (some version)) = parse_version (major version)

  -- parsePnpmLockDependencies
  unfoldable pub parse_pnpm_lock_dependencies :
      FirstLine → Result LockfileError (Option (Assoc Str (Assoc Str Str)))
  unfolding parse_pnpm_lock_version merge_importers
  parse_pnpm_lock_dependencies first = with_version (parse_pnpm_lock_version first)

version_test : lock_version (codes "lockfileVersion: '6.0'") ≡ some (codes "6.0")
unfolding lock_version has_prefix
version_test = refl

abbrev pub or_version : Option Str → Option Str → Option Str
or_version none before = before
or_version (some version) before = some version

module _ {V : Type 0} (version_of : V → Str) where
  -- What a set says of a package.
  abbrev pub version_in : Str → Assoc Str V → Option Str
  version_in k [] = none
  version_in k ((j, v) ∷ m) =
      or_version (version_in k m) (if j == k then some (version_of v) else none)

  lookup-copy_versions :
      (k : Str) (m : Assoc Str V) (result : Assoc Str Str)
      → lookup k (copy_versions version_of m result) ≡ or_version (version_in k m) (lookup k result)
  unfolding copy_versions
  lookup-copy_versions k [] result = refl
  lookup-copy_versions k ((j, v) ∷ m) result =
      lookup-copy_versions k m (insert j (version_of v) result)
      ∙ ground (arith, lookup-insert j k (version_of v) result)

  -- Of a package in several sets of dependencies the optional ones decide the version, then the peer
  -- ones, then those of development.
  pub lookup-merge_dependencies :
      (k : Str) (d : Dependencies V)
      → lookup k (merge_dependencies version_of d)
        ≡ or_version (version_in k d.optional_dependencies) (
            or_version (version_in k d.peer_dependencies) (
              or_version
                (version_in k d.dev_dependencies)
                (or_version (version_in k d.dependencies) none)))
  unfolding merge_dependencies lookup
  lookup-merge_dependencies k d = rw (
    lookup-copy_versions k d.optional_dependencies,
    lookup-copy_versions k d.peer_dependencies,
    lookup-copy_versions k d.dev_dependencies,
    lookup-copy_versions k d.dependencies,
  )
