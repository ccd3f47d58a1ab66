-- ===== src/JsImports/Protos.antt =====
-- language/js/resolve.go: the imports that a ts_proto_library provides, and the proto source that an
-- import of them names. An expression of an attribute that is not of the kind asked for is none.
use aspect_gazelle.Base.{
  Bool, Option, none, some, List, [], ◌∷◌, ◌++◌, Str, codes, has_suffix, trim_suffix, if◌then◌else◌,
}
use aspect_gazelle.GoPath.{join}

-- The attributes of a ts_proto_library that are read.
pub record TsProtoLibrary : Type 0 where
  pub proto_srcs : Option (List Str)
  pub gen_connect_es : Bool
  pub gen_connect_query : Bool
  pub service_mapping : List (Option Str × Option (List (Option Str)))

abbrev pub base_without_proto : Str → Str → Str
base_without_proto pkg src = trim_suffix (join pkg src) (codes ".proto")

-- `{proto}-{service}_connectquery`
unfoldable pub service_outputs : Str → Str → List (Option Str) → List Str
service_outputs pkg proto_name [] = []
service_outputs pkg proto_name (none ∷ services) = service_outputs pkg proto_name services
service_outputs pkg proto_name (some service ∷ services) =
    join pkg (proto_name ++ codes "-" ++ service ++ codes "_connectquery")
    ∷ service_outputs pkg proto_name services

unfoldable pub query_outputs : Str → List (Option Str × Option (List (Option Str))) → List Str
unfolding service_outputs
query_outputs pkg [] = []
query_outputs pkg ((some key, some services) ∷ mapping) =
    service_outputs pkg (trim_suffix key (codes ".proto")) services ++ query_outputs pkg mapping
query_outputs pkg ((some key, none) ∷ mapping) = query_outputs pkg mapping
query_outputs pkg ((none, services) ∷ mapping) = query_outputs pkg mapping

-- The outputs of one source: messages, Connect, and query services.
unfoldable pub source_outputs : Str → TsProtoLibrary → Str → List Str
unfolding query_outputs
source_outputs pkg r src =
    (base_without_proto pkg src ++ codes "_pb")
    ∷ ((if r.gen_connect_es then (base_without_proto pkg src ++ codes "_connect") ∷ [] else [])
        ++ (if r.gen_connect_query then query_outputs pkg r.service_mapping else []))

unfoldable pub dts_outputs : Str → TsProtoLibrary → List Str → List Str
unfolding source_outputs
dts_outputs pkg r [] = []
dts_outputs pkg r (src ∷ srcs) = source_outputs pkg r src ++ dts_outputs pkg r srcs

-- Without an extension, and those of the two files.
abbrev pub output_imports : Str → List Str
output_imports output = output ∷ (output ++ codes ".js") ∷ (output ++ codes ".d.ts") ∷ []

abbrev pub all_imports : List Str → List Str
all_imports [] = []
all_imports (output ∷ outputs) = output_imports output ++ all_imports outputs

abbrev pub imports_of_srcs : Str → TsProtoLibrary → Option (List Str) → List Str
imports_of_srcs pkg r none = []
imports_of_srcs pkg r (some srcs) = all_imports (dts_outputs pkg r srcs)

-- protoLibraryImports
unfoldable pub proto_library_imports : Str → TsProtoLibrary → List Str
unfolding dts_outputs
proto_library_imports pkg r = imports_of_srcs pkg r r.proto_srcs

abbrev pub without_js_ext : Str → Str
without_js_ext imp =
    if has_suffix imp (codes ".d.ts")
    then trim_suffix imp (codes ".d.ts")
    else if has_suffix imp (codes ".js")
    then trim_suffix imp (codes ".js")
    else imp

abbrev pub proto_of_base : Str → Option Str
proto_of_base base =
    if has_suffix base (codes "_pb")
    then some (trim_suffix base (codes "_pb") ++ codes ".proto")
    else none

-- jsProtoImpToProtoSrc
unfoldable pub js_proto_imp_to_proto_src : Str → Option Str
js_proto_imp_to_proto_src imp = proto_of_base (without_js_ext imp)
