-- ===== src/Node/Witnesses.antt =====
-- The theorems on import paths at an import.
use aspect_gazelle.Base.{◌≡◌, refl, codes, [], contains_byte}
use aspect_gazelle.Node.{parse_import_path}
use aspect_gazelle.Node.Laws.{IsPackageName, parse_import_path-IsPackageName}

parse_import_path-IsPackageName_example :
    (parse_import_path (codes "@scope/name") ≡ (codes "@scope/name", []))
    × (parse_import_path (codes "@scope/name/sub/path") ≡ (codes "@scope/name", codes "sub/path"))
unfolding contains_byte
parse_import_path-IsPackageName_example =
    parse_import_path-IsPackageName (codes "@scope/name") (codes "sub/path")
      (IsPackageName.in_scope (codes "scope") (codes "name") refl refl)
