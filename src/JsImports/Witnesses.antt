-- ===== src/JsImports/Witnesses.antt =====
-- The theorems on import paths at a source of a package, and at a proto library.
use aspect_gazelle.Base.{
  ◌≡◌, refl, sym, append_assoc, true, false, some, [], ◌∷◌, ◌++◌, codes, In, here, there,
  has_prefix, has_suffix, contains_byte, option_beq, list_beq,
}
use aspect_gazelle.GoPath.{join, ext, clean, split}
use aspect_gazelle.JsImports.{
  is_transpiled_source_file_ext, to_js_ext, to_dts_ext, is_implicit_source_file_ext,
  to_import_paths, is_declaration_file_type, to_import_spec_path, to_out_dir_path,
}
use aspect_gazelle.JsImports.Protos.{
  TsProtoLibrary, base_without_proto, proto_library_imports, js_proto_imp_to_proto_src,
}
use aspect_gazelle.JsImports.Translated.{js_proto_imp_to_proto_src-provided}

not_declaration : is_declaration_file_type (codes "lib/index.ts") ≡ false
unfolding is_declaration_file_type has_suffix
not_declaration = refl

index_test :
    to_import_paths (codes "lib/index.ts")
    ≡ codes "lib/index.js" ∷ codes "lib/index.d.ts" ∷ codes "lib/index" ∷ codes "lib" ∷ []
unfolding to_import_paths is_declaration_file_type has_suffix is_transpiled_source_file_ext ext
    contains_byte to_js_ext to_dts_ext is_implicit_source_file_ext
index_test = refl

spec_test : to_import_spec_path [] (codes "lib/a/b.ts") (codes "../c?raw") ≡ codes "lib/c"
unfolding to_import_spec_path has_prefix clean split
spec_test = refl

out_dir_test : to_out_dir_path (codes "src") (codes "dist") (codes "src/a.ts") ≡ codes "dist/a.ts"
unfolding to_out_dir_path list_beq has_prefix option_beq
out_dir_test = refl

abbrev library : TsProtoLibrary
library = record {
  proto_srcs = some (codes "a.proto" ∷ codes "b.proto" ∷ []);
  gen_connect_es = true;
  gen_connect_query = false;
  service_mapping = [];
}

is_proto : has_suffix (join (codes "api") (codes "b.proto")) (codes ".proto") ≡ true
unfolding has_suffix join
is_proto = refl

js_proto_imp_to_proto_src-provided_example :
    In
      (base_without_proto (codes "api") (codes "b.proto") ++ codes "_pb.d.ts")
      (proto_library_imports (codes "api") library)
    × (js_proto_imp_to_proto_src
          (base_without_proto (codes "api") (codes "b.proto") ++ codes "_pb.d.ts")
        ≡ some (join (codes "api") (codes "b.proto")))
js_proto_imp_to_proto_src-provided_example =
    js_proto_imp_to_proto_src-provided (codes "api") library (codes "b.proto")
      (base_without_proto (codes "api") (codes "b.proto") ++ codes "_pb.d.ts")
      (codes "a.proto" ∷ codes "b.proto" ∷ []) refl (there (here refl)) is_proto
      (there (
        there (
          here (
            sym (
              append_assoc (base_without_proto (codes "api") (codes "b.proto")) (codes "_pb")
                (codes ".d.ts"))))))
