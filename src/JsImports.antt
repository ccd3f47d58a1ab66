-- ===== src/JsImports.antt =====
-- language/js/generate.go: the kinds of source files by their extension, the paths that a file can be
-- imported as, and the path that an import statement names.
pub mod Declared
pub mod Protos
pub mod Translated
mod Witnesses
use aspect_gazelle.Base.{
  ℕ, ◌+◌, ◌-◌, Bool, true, false, List, [], ◌∷◌, ◌++◌, ◌==◌, ◌&&◌, ◌||◌, not, any, nat_eq, list_eq,
  Str, codes, slash, has_prefix, has_suffix, contains_byte, length, take, if◌then◌else◌, leb, drop,
  ltb, get_elem?, option_eq, some,
}
use aspect_gazelle.GoPath.{clean, ext, join, split}

abbrev pub slash_index_file_name : Str
slash_index_file_name = codes "/index"

abbrev pub one_of : Str → List Str → Bool
one_of e exts = any (λ (x : Str). e == x) exts

-- isTranspiledSourceFileExt
unfoldable pub is_transpiled_source_file_ext : Str → Bool
is_transpiled_source_file_ext e =
    one_of e (codes ".ts" ∷ codes ".cts" ∷ codes ".mts" ∷ codes ".tsx" ∷ codes ".jsx" ∷ [])

-- isSourceFileExt
unfoldable pub is_source_file_ext : Str → Bool
is_source_file_ext e = one_of e (
    codes ".ts"
    ∷ codes ".cts"
    ∷ codes ".mts"
    ∷ codes ".tsx"
    ∷ codes ".jsx"
    ∷ codes ".js"
    ∷ codes ".cjs"
    ∷ codes ".mjs"
    ∷ [])

-- isImplicitSourceFileExt
unfoldable pub is_implicit_source_file_ext : Str → Bool
is_implicit_source_file_ext e =
    one_of e (codes ".ts" ∷ codes ".tsx" ∷ codes ".js" ∷ codes ".jsx" ∷ [])

-- isTsxFileExt and isDataFileExt
unfoldable pub is_tsx_file_ext : Str → Bool
is_tsx_file_ext e = one_of e (codes ".tsx" ∷ codes ".jsx" ∷ [])

unfoldable pub is_data_file_ext : Str → Bool
is_data_file_ext e = e == codes ".json"

-- isDeclarationFileType
unfoldable pub is_declaration_file_type : Str → Bool
is_declaration_file_type f =
    has_suffix f (codes ".d.ts") || has_suffix f (codes ".d.mts") || has_suffix f (codes ".d.cts")

-- isTranspiledSourceFileType
unfoldable pub is_transpiled_source_file_type : Str → Bool
is_transpiled_source_file_type f =
    is_transpiled_source_file_ext (ext f) && not (is_declaration_file_type f)

-- jsExt and toJsExt: an extension that is not known is taken to compile to `.js`.
unfoldable pub to_js_ext : Str → Str
to_js_ext e =
    if one_of e (codes ".ts" ∷ codes ".tsx" ∷ codes ".jsx" ∷ [])
    then codes ".js"
    else if e == codes ".cts"
    then codes ".cjs"
    else if e == codes ".mts"
    then codes ".mjs"
    else if one_of e (codes ".js" ∷ codes ".cjs" ∷ codes ".mjs" ∷ codes ".json" ∷ [])
    then e
    else codes ".js"

-- dtsExt and toDtsExt
unfoldable pub to_dts_ext : Str → Str
to_dts_ext e =
    if e == codes ".cts"
    then codes ".d.cts"
    else if e == codes ".mts"
    then codes ".d.mts"
    else codes ".d.ts"

-- `p[:len(p)-n]`
abbrev pub without_last : ℕ → Str → Str
without_last n p = take (length p - n) p

-- Without the extension, where it is implicit, and then the directory of an index file.
unfoldable pub short_imports : Str → Str → List Str
short_imports e no_ext =
    (if is_implicit_source_file_ext e then no_ext ∷ [] else [])
    ++ (if has_suffix no_ext slash_index_file_name
        then without_last (length slash_index_file_name) no_ext ∷ []
        else [])

-- toImportPaths
unfoldable pub to_import_paths : Str → List Str
unfolding short_imports
to_import_paths p =
    let e = ext p in
    let no_ext = without_last (length e) p in
    if is_declaration_file_type p
    then (let no_dts = take (length no_ext - 2) p in
        p ∷ (no_dts ++ to_js_ext e) ∷ short_imports e no_dts)
    else if is_transpiled_source_file_ext e
    then (no_ext ++ to_js_ext e) ∷ (no_ext ++ to_dts_ext e) ∷ short_imports e no_ext
    else if is_source_file_ext e
    then p ∷ short_imports e no_ext
    else p ∷ []

-- joinPkg
unfoldable pub join_pkg : Str → Str → Str
join_pkg [] file = file
join_pkg (c ∷ pkg) file = (c ∷ pkg) ++ slash ∷ file

abbrev pub below_root : Str → Str → Str
below_root root_dir src =
    if not (root_dir == codes ".")
      && has_prefix src root_dir
      && ltb (length root_dir) (length src)
      && get_elem? src (length root_dir) == some slash
    then drop (length root_dir + 1) src
    else src

-- toOutDirPath, for clean directories
unfoldable pub to_out_dir_path : Str → Str → Str → Str
unfolding join_pkg
to_out_dir_path root_dir out_dir src =
    if out_dir == codes "."
    then below_root root_dir src
    else join_pkg out_dir (below_root root_dir src)

-- Up to the first `?` or `#`, after the first byte.
unfoldable pub up_to_query : Str → Str
up_to_query [] = []
up_to_query (c ∷ s) = let rest = up_to_query s in if c == b'?' || c == b'#' then [] else c ∷ rest

-- stripImportQuery
unfoldable pub strip_import_query : Str → Str
unfolding up_to_query
strip_import_query [] = []
strip_import_query (c ∷ s) = c ∷ up_to_query s

unfoldable pub contains_text : Str → Str → Bool
contains_text [] text = has_prefix [] text
contains_text (c ∷ s) text = has_prefix (c ∷ s) text || contains_text s text

abbrev pub without_leading_slashes : Str → Str
without_leading_slashes [] = []
without_leading_slashes (c ∷ s) =
    let rest = without_leading_slashes s in if c == slash then rest else c ∷ s

-- A path that begins with a slash.
abbrev pub rooted_import : Str → Str → Str → Str
rooted_import absolute_base import_dir trimmed =
    if absolute_base == codes "."
    then clean (import_dir ++ trimmed)
    else if absolute_base == []
    then clean trimmed
    else join absolute_base trimmed

abbrev pub import_spec : Str → Str → Str → Str
import_spec absolute_base import_dir [] = []
import_spec absolute_base import_dir (c ∷ s) =
    if contains_text (c ∷ s) (codes "://")
    then c ∷ s
    else if c == slash
    then rooted_import absolute_base import_dir (without_leading_slashes (c ∷ s))
    else if c == b'.' || absolute_base == codes "."
    then clean (import_dir ++ c ∷ s)
    else clean (c ∷ s)

-- toImportSpecPath
unfoldable pub to_import_spec_path : Str → Str → Str → Str
unfolding strip_import_query contains_text
to_import_spec_path absolute_base import_from import_path =
    import_spec absolute_base (split import_from).0 (strip_import_query import_path)
