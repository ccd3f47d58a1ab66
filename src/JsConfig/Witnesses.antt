-- ===== src/JsConfig/Witnesses.antt =====
-- The theorems on settings at a file of directives and at a directory below it; labels are texts,
-- and every pattern with a wildcard is taken to match.
use aspect_gazelle.Base.{
  ◌≡◌, refl, Bool, true, false, Option, none, some, List, [], ◌∷◌, Str, codes, list_beq, list_eq,
  nat_eq, ◌==◌, here, there, trim_prefix, cut,
}
use aspect_gazelle.Base.Assoc.{lookup}
use aspect_gazelle.Base.Split.{trim_space}
use aspect_gazelle.Base.Exec.{ok}
use aspect_gazelle.Glob.{parse_valid_expression, parse_glob_expression, is_non_glob, is_plain}
use aspect_gazelle.JsConfig.{
  TargetGroup, Settings, JsGazelleConfig, default_library_name, default_tests_name, new_root_config,
}
use aspect_gazelle.JsConfig.Groups.{
  normalize_and_validate_glob, add_target_glob, get_source_target, find_target, update_target,
}
use aspect_gazelle.JsConfig.Naming.{map_target_name, reverse_map_target_name, parse_group_glob}
use aspect_gazelle.JsConfig.Naming.Rendered.{map_target_name-reverse_map_target_name}
use aspect_gazelle.JsConfig.Imports.{is_import_ignored, add_ignored_import}
use aspect_gazelle.JsConfig.Directives.{configure, apply_directive}
use aspect_gazelle.JsConfig.Directives.Kinds.{Directive, directive_kind}
use aspect_gazelle.JsConfig.Directives.Kept.{IsWellGrouped, flags}
use aspect_gazelle.JsConfig.Extends.{
  itself, child, Ignores, configure-IsWellGrouped, is_import_ignored-configure,
}

abbrev any_label : Str → Option Str
any_label s = some s

abbrev match_all : Str → Str → Bool
match_all pattern s = true

abbrev all_valid : Str → Bool
all_valid pattern = true

abbrev root : JsGazelleConfig Str
root = new_root_config

abbrev ignore_fs : Directive
ignore_fs = record { key = codes "js_ignore_imports"; value = codes " fs " }

abbrev directives : List Directive
directives =
    record { key = codes "js_files"; value = codes "src/*.ts" }
    ∷ ignore_fs
    ∷ record { key = codes "js_test_files"; value = codes "e2e e2e/*.ts" }
    ∷ []

directives_test :
    flags (configure any_label match_all all_valid none [] (some directives)).1.own.targets
    ≡ (default_library_name, false) ∷ (default_tests_name, true) ∷ (codes "e2e", true) ∷ []
unfolding configure apply_directive lookup list_beq add_target_glob normalize_and_validate_glob
    parse_valid_expression find_target parse_group_glob cut trim_space add_ignored_import
    update_target reverse_map_target_name
directives_test = refl

reads : (configure any_label match_all all_valid none [] (some directives)).0 ≡ ok tt
unfolding configure apply_directive lookup list_beq add_target_glob normalize_and_validate_glob
    parse_valid_expression find_target parse_group_glob cut trim_space add_ignored_import
    update_target reverse_map_target_name
reads = refl

-- The file of the root, and then a directory below it that has none.
configure-IsWellGrouped_example :
    IsWellGrouped (configure any_label match_all all_valid none [] (some directives)).1.own
configure-IsWellGrouped_example =
    configure-IsWellGrouped any_label match_all all_valid none [] (some directives) tt

ignore_fs-Ignores : Ignores any_label match_all all_valid ignore_fs (codes "fs")
unfolding directive_kind lookup list_beq parse_valid_expression trim_space parse_glob_expression
    is_non_glob is_plain
ignore_fs-Ignores = record {
  kind = refl;
  glob = λ s. s == codes "fs";
  parsed = refl;
  matching = refl;
}

is_import_ignored-configure_example :
    is_import_ignored
      (configure any_label match_all all_valid
        (some (configure any_label match_all all_valid none [] (some directives)).1)
        (codes "lib")
        none).1
      (codes "fs")
    ≡ true
is_import_ignored-configure_example =
    is_import_ignored-configure any_label match_all all_valid none [] (codes "fs") directives
      ignore_fs (there (here refl)) ignore_fs-Ignores reads (child (codes "lib") none itself)

abbrev default_library : TargetGroup Str
default_library = record {
  name = default_library_name;
  custom_sources = [];
  inherited_sources = codes "${rootDir}/**/*.{ts,tsx,mts,cts}" ∷ [];
  custom_assets = [];
  inherited_assets = [];
  visibility = [];
  testonly = false;
}

library_found : get_source_target default_library_name root.own ≡ some default_library
unfolding find_target new_root_config list_beq
library_found = refl

normalized :
    normalize_and_validate_glob match_all all_valid default_library_name (codes "./src/a.ts")
    ≡ ok (codes "src/a.ts")
unfolding normalize_and_validate_glob parse_valid_expression trim_prefix
normalized = refl

abbrev named_library : Settings Str
named_library = record root.own {
  target_naming_overrides = (default_library_name, codes "{dirname}_src") ∷ [];
}

not_a_name : lookup (codes "{dirname}_src") named_library.target_naming_overrides ≡ none
unfolding lookup list_beq
not_a_name = refl

map_target_name-reverse_map_target_name_example :
    map_target_name named_library (reverse_map_target_name named_library (codes "{dirname}_src"))
    ≡ codes "{dirname}_src"
map_target_name-reverse_map_target_name_example =
    map_target_name-reverse_map_target_name named_library b'{' (codes "dirname}_src") (refl, tt)
      not_a_name
