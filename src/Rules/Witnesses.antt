-- ===== src/Rules/Witnesses.antt =====
-- The theorems on rules at a BUILD file with a mapped and a foreign rule.
use aspect_gazelle.Base.{String, ◌≡◌, refl, ◌↔◌, ◌⊎◌, none, some, List, [], ◌∷◌, string_eq}
use aspect_gazelle.Rules.{
  Rule, GenerateArgs, find_rule, get_file_rule_by_name, map_kind, check_collision_errors,
}
use aspect_gazelle.Rules.Collision.{Owns, check_collision_errors-none_iff}

abbrev library : Rule
library = record { kind = "my_ts_project"; name = "lib" }

abbrev build_file : GenerateArgs
build_file = record {
  file = some (record { kind = "go_library"; name = "go" } ∷ library ∷ []);
  kind_map = ("ts_project", "my_ts_project") ∷ [];
}

abbrev generated_kinds : List String
generated_kinds = "js_library" ∷ "ts_project" ∷ []

check_collision_errors-none_iff_example :
    (check_collision_errors "lib" "js_library" generated_kinds build_file ≡ none) ↔ (
      (existing : Rule)
      → get_file_rule_by_name build_file "lib" ≡ some existing
      → (existing.kind ≡ map_kind build_file "js_library")
        ⊎ Owns build_file generated_kinds existing.kind)
check_collision_errors-none_iff_example =
    check_collision_errors-none_iff "lib" "js_library" generated_kinds build_file

find_library : get_file_rule_by_name build_file "lib" ≡ some library
unfolding get_file_rule_by_name find_rule
find_library = refl
