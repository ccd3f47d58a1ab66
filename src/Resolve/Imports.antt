-- ===== src/Resolve/Imports.antt =====
-- language/js/resolve.go: Imports and Embeds, the paths and the labels that a rule can be imported by.
use aspect_gazelle.Base.{
  ◌-◌, Bool, false, Option, none, some, List, [], ◌∷◌, ◌++◌, ◌==◌, ◌&&◌, ◌||◌, not, list_eq, nat_eq,
  Str, codes, length, take, if◌then◌else◌,
}
use aspect_gazelle.GoPath.{clean, ext, join}
use aspect_gazelle.JsImports.{
  join_pkg, to_out_dir_path, to_import_paths, is_transpiled_source_file_type, to_js_ext, to_dts_ext,
}
use aspect_gazelle.JsImports.Protos.{TsProtoLibrary, proto_library_imports}
use aspect_gazelle.Labels.{Label}
use aspect_gazelle.Resolve.{ImportSpec, language_name}
use aspect_gazelle.Resolve.Rule.{RuleKind}

-- The attributes of a rule that its outputs depend by; one that is not set is empty, but for
-- declaration_dir.
pub record OutputAttributes : Type 0 where
  pub out_dir : Str
  pub declaration_dir : Option Str
  pub root_dir : Str

abbrev pub declaration_dir_of : OutputAttributes → Str → Str
declaration_dir_of a out_dir = elim a.declaration_dir [ none ↦ out_dir | some dir ↦ clean dir ]

-- The path of an output, unless it is that of the source.
abbrev pub other_path : Str → Str → Str → List Str
other_path pkg src out = if out == src then [] else join_pkg pkg out ∷ []

abbrev pub output_paths : Bool → Str → Str → Str → Str → List Str
output_paths applies pkg root_dir out_dir src =
    if applies then other_path pkg src (to_out_dir_path root_dir out_dir src) else []

-- The paths of a source and of what is made of it, for clean directories.
unfoldable pub source_paths : Str → Str → Str → Str → Str → List Str
unfolding to_out_dir_path
source_paths pkg root_dir out_dir declaration_dir src =
    join_pkg pkg src
      ∷ output_paths (not (out_dir == codes ".") || not (root_dir == codes ".")) pkg root_dir
          out_dir src
    ++ output_paths
        ((not (declaration_dir == codes ".") || not (root_dir == codes "."))
          && not (declaration_dir == out_dir))
        pkg root_dir declaration_dir src

abbrev pub js_specs : List Str → List ImportSpec
js_specs [] = []
js_specs (imp ∷ imps) = record { lang = language_name; imp = imp } ∷ js_specs imps

unfoldable pub specs_of_paths : List Str → List ImportSpec
unfolding to_import_paths
specs_of_paths [] = []
specs_of_paths (p ∷ paths) = js_specs (to_import_paths p) ++ specs_of_paths paths

unfoldable pub specs_of_sources : Str → Str → Str → Str → List Str → List ImportSpec
unfolding source_paths specs_of_paths
specs_of_sources pkg root_dir out_dir declaration_dir [] = []
specs_of_sources pkg root_dir out_dir declaration_dir (src ∷ srcs) =
    specs_of_paths (source_paths pkg root_dir out_dir declaration_dir src)
    ++ specs_of_sources pkg root_dir out_dir declaration_dir srcs

-- sourceFileImports of the sources of a rule: those of its info, or what ExpandSrcs gives for its srcs,
-- with `none` for an error.
unfoldable pub source_file_imports : Str → OutputAttributes → Option (List Str) → List ImportSpec
unfolding specs_of_sources clean
source_file_imports pkg a none = []
source_file_imports pkg a (some srcs) =
    specs_of_sources pkg (clean a.root_dir) (clean a.out_dir)
      (declaration_dir_of a (clean a.out_dir)) srcs

-- A rule as Imports reads it; `src` is the attribute of a ts_config.
pub record ImportedRule : Type 0 where
  pub kind : RuleKind
  pub proto : TsProtoLibrary
  pub src : Str
  pub outputs : OutputAttributes
  pub sources : Option (List Str)

abbrev pub imports_by_kind : Str → ImportedRule → RuleKind → List ImportSpec
imports_by_kind pkg r RuleKind.ts_proto_library_kind = js_specs (proto_library_imports pkg r.proto)
imports_by_kind pkg r RuleKind.ts_config_kind = js_specs (join pkg r.src ∷ [])
imports_by_kind pkg r RuleKind.ts_project_kind = source_file_imports pkg r.outputs r.sources
imports_by_kind pkg r RuleKind.js_library_kind = source_file_imports pkg r.outputs r.sources
imports_by_kind pkg r RuleKind.npm_package_kind = []
imports_by_kind pkg r RuleKind.other_kind = []

-- Imports
unfoldable pub imports : Str → ImportedRule → List ImportSpec
unfolding source_file_imports proto_library_imports join
imports pkg r = imports_by_kind pkg r r.kind

abbrev pub output_label : Label → Str → Label
output_label from name = record {
  repo = from.repo;
  pkg = from.pkg;
  name = name;
  relative = false;
  canonical = false;
}

abbrev pub embeds_of : Label → Str → List Label
embeds_of from src =
    let no_ext = take (length src - length (ext src)) src in
    if is_transpiled_source_file_type src
    then output_label from (no_ext ++ to_js_ext (ext src))
      ∷ output_label from (no_ext ++ to_dts_ext (ext src))
      ∷ []
    else []

unfoldable pub embeds_of_sources : Label → List Str → List Label
unfolding ext is_transpiled_source_file_type to_js_ext to_dts_ext
embeds_of_sources from [] = []
embeds_of_sources from (src ∷ srcs) = embeds_of from src ++ embeds_of_sources from srcs

-- Embeds
unfoldable pub embeds : RuleKind → Label → List Str → List Label
unfolding embeds_of_sources
embeds RuleKind.ts_project_kind from srcs = embeds_of_sources from srcs
embeds _ from srcs = []
