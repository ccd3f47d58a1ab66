-- ===== src/Rules.antt =====
-- common/rule/rules.go: rules of a BUILD file against the rules that an extension generates. The
-- file, Gazelle's map of kinds and the sorted set of generated kinds are what Gazelle hands over.
pub mod Collision
mod Witnesses
use aspect_gazelle.Base.{
  String, Bool, true, false, Option, none, some, List, [], ◌∷◌, ◌++◌, ◌==◌, string_eq, not,
  if◌then◌else◌,
}
use aspect_gazelle.Base.Assoc.{Assoc, lookup}

pub record Rule : Type 0 where
  pub kind : String
  pub name : String

-- What of language.GenerateArgs is used: File, and the KindName of each entry of Config.KindMap.
pub record GenerateArgs : Type 0 where
  pub file : Option (List Rule)
  pub kind_map : Assoc String String

unfoldable pub find_rule : String → List Rule → Option Rule
find_rule rule_name [] = none
find_rule rule_name (r ∷ rules) =
    let rest = find_rule rule_name rules in if r.name == rule_name then some r else rest

-- GetFileRuleByName
unfoldable pub get_file_rule_by_name : GenerateArgs → String → Option Rule
get_file_rule_by_name args rule_name = elim args.file [
  | none ↦ none
  | some rules ↦ find_rule rule_name rules
]

abbrev pub text_or_empty : Option String → String
text_or_empty none = ""
text_or_empty (some s) = s

-- MapKind: a kind without an entry reads as one that is mapped to the empty name.
unfoldable pub map_kind : GenerateArgs → String → String
map_kind args kind =
    let mapped = text_or_empty (lookup kind args.kind_map) in
    if not (mapped == "") then mapped else kind

-- getMappedKind
unfoldable pub get_mapped_kind : GenerateArgs → List String → String → Option String
get_mapped_kind args [] kind = none
get_mapped_kind args (generated ∷ kinds) kind =
    let rest = get_mapped_kind args kinds kind in
    if map_kind args generated == kind then some generated else rest

-- containsMappedKind
unfoldable pub contains_mapped_kind : GenerateArgs → List String → String → Bool
contains_mapped_kind args kinds kind = elim (get_mapped_kind args kinds kind) [
  | none ↦ false
  | some k ↦ true
]

-- The kinds that the error names: of the target, and of the rule that is there.
pub data CollisionError : Type 0 where
  collision : String → String → String → CollisionError

-- CheckCollisionErrors; none is nil.
unfoldable pub check_collision_errors :
    String → String → List String → GenerateArgs → Option CollisionError
check_collision_errors target_name expected_kind kinds args =
    elim (get_file_rule_by_name args target_name) [
      | none ↦ none
      | some existing ↦
          let mapped = map_kind args expected_kind in
          if existing.kind == mapped
          then none
          else if not (contains_mapped_kind args kinds existing.kind)
          then some (collision target_name mapped existing.kind)
          else none
    ]

-- RemoveRule on result.Empty.
unfoldable pub remove_rule : GenerateArgs → String → List String → List Rule → List Rule
remove_rule args rule_name kinds empty = elim (get_file_rule_by_name args rule_name) [
  | none ↦ empty
  | some existing ↦ elim (get_mapped_kind args kinds existing.kind) [
    | none ↦ empty
    | some mapped ↦ empty ++ record { kind = mapped; name = rule_name } ∷ []
  ]
]
