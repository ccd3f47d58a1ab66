-- ===== src/Resolve.antt =====
-- language/js/resolve.go: the labels that the imports of a rule stand for. The rule index of gazelle
-- and the methods of its labels are parameters.
pub mod Collect
pub mod Packages
pub mod Rule
pub mod Imports
pub mod Provided
pub mod Unknown
pub mod Reported
pub mod Routed
pub mod Scope
pub mod FileLabels
mod Witnesses
use aspect_gazelle.Base.{
  ℕ, Bool, true, false, Option, none, some, List, [], ◌∷◌, ◌++◌, ◌==◌, ◌&&◌, ◌||◌, not, any, map,
  list_eq, nat_eq, Str, codes, if◌then◌else◌,
}
use aspect_gazelle.Base.Assoc.{Assoc, lookup}
use aspect_gazelle.Base.Exec.{Result, ok, err}
use aspect_gazelle.JsConfig.{JsGazelleConfig, ValidationMode}
use aspect_gazelle.JsConfig.Imports.{get_resolution}
use aspect_gazelle.JsImports.{to_import_spec_path}
use aspect_gazelle.Labels.{Label, added_label}
use aspect_gazelle.Node.{parse_import_path, is_subpath_import, to_at_types_package, is_node_import}

abbrev pub language_name : Str
language_name = codes "js"

pub record ImportSpec : Type 0 where
  pub lang : Str
  pub imp : Str

-- The kinds, and the empty text of a statement that is made without one.
pub data ImportKind : Type 0 where
  no_import_kind import_kind_import import_kind_jsx import_kind_url : ImportKind

pub record ImportStatement : Type 0 where
  pub spec : ImportSpec
  pub source_path : Str
  pub import_path : Str
  pub kind : ImportKind
  pub optional : Bool
  pub types_only : Bool

pub record FindResult : Type 0 where
  pub label : Label
  pub embeds : List Label

-- What the package resolve of gazelle answers: FindRulesByImportWithConfig for imports of js,
-- FindRulesByImport, FindRuleWithOverride for imports of js, and IsSelfImport.
pub record RuleIndex : Type 0 where
  pub find_rules_by_import_with_config : ImportSpec → List FindResult
  pub find_rules_by_import : ImportSpec → Str → List FindResult
  pub find_rule_with_override : ImportSpec → Option Label
  pub is_self_import : FindResult → Label → Bool

-- The methods Equal, Rel and String of labels.
pub record LabelMethods : Type 0 where
  pub equal : Label → Label → Bool
  pub rel : Label → Str → Str → Label
  pub string : Label → Str

-- The fields of typeScriptLang that imports are resolved with, and the native modules of node.
pub record TypeScriptLang : Type 0 where
  pub file_labels : Assoc Str Label
  pub module_types : Assoc Str (List Label)
  pub native_modules : List Str

-- The type of a resolution, with the labels that come with that type; an ambiguous import is
-- Resolution_Error with its error.
pub data Resolution : Type 0 where
  resolution_error : List Label → Resolution
  resolution_none resolution_not_found resolution_native_node : Resolution
  resolution_label : List Label → Resolution
  resolution_file : Label → Resolution

abbrev pub labels_of : List FindResult → List Label
labels_of [] = []
labels_of (m ∷ matches) = m.label ∷ labels_of matches

abbrev pub has_several : List FindResult → Bool
has_several [] = false
has_several (m ∷ []) = false
has_several (m ∷ n ∷ matches) = true

-- What the rules that are found resolve an import to.
abbrev pub resolution_of_matches : (FindResult → Bool) → Str → List FindResult → Resolution
resolution_of_matches is_self imp [] = resolution_not_found
resolution_of_matches is_self imp (m ∷ matches) =
    if any is_self (m ∷ matches)
    then resolution_none
    else if has_several (m ∷ matches) && not (is_subpath_import imp)
    then resolution_error (labels_of (m ∷ matches))
    else resolution_label (labels_of (m ∷ matches))

-- resolveExplicitImportFromIndex
unfoldable pub resolve_explicit_import_from_index : RuleIndex → Label → ImportStatement → Resolution
unfolding is_subpath_import
resolve_explicit_import_from_index ix from imp_stm =
    resolution_of_matches (λ (m : FindResult). ix.is_self_import m from) imp_stm.spec.imp
      (ix.find_rules_by_import_with_config imp_stm.spec)

-- The import for a path of the tsconfig; it is not for types only.
abbrev pub mapped_statement : ImportStatement → Str → ImportStatement
mapped_statement imp_stm p = record {
  spec = record { lang = imp_stm.spec.lang; imp = to_import_spec_path [] imp_stm.source_path p };
  source_path = imp_stm.source_path;
  import_path = imp_stm.import_path;
  kind = ImportKind.no_import_kind;
  optional = imp_stm.optional;
  types_only = false;
}

-- `if …; resolution != Resolution_NotFound { return … }`
abbrev pub or_else_resolve : Resolution → Resolution → Resolution
or_else_resolve resolution_not_found next = next
or_else_resolve (resolution_error ls) next = resolution_error ls
or_else_resolve resolution_none next = resolution_none
or_else_resolve resolution_native_node next = resolution_native_node
or_else_resolve (resolution_label ls) next = resolution_label ls
or_else_resolve (resolution_file l) next = resolution_file l

unfoldable pub resolve_mapped :
    RuleIndex → Label → ImportStatement → List Str → Resolution → Resolution
unfolding resolve_explicit_import_from_index to_import_spec_path
resolve_mapped ix from imp_stm [] next = next
resolve_mapped ix from imp_stm (p ∷ ps) next =
    or_else_resolve (resolve_explicit_import_from_index ix from (mapped_statement imp_stm p))
      (resolve_mapped ix from imp_stm ps next)

abbrev pub file_or_native : Bool → Option Label → Resolution
file_or_native native (some l) = resolution_file l
file_or_native native none = if native then resolution_native_node else resolution_not_found

-- The raw file that an import is, or else a module of node.
unfoldable pub resolve_file : TypeScriptLang → Str → Resolution
unfolding lookup is_node_import
resolve_file ts imp =
    file_or_native (is_node_import ts.native_modules imp) (lookup imp ts.file_labels)

-- A panic of ExpandPaths, or an import with several targets.
pub data Failure : Type 0 where
  panic : Failure
  multiple_targets : ImportStatement → List Label → Failure

abbrev pub with_error : ImportStatement → Resolution → Result Failure Resolution
with_error imp_stm (resolution_error ls) = err (Failure.multiple_targets imp_stm ls)
with_error imp_stm r = ok r

-- The tsconfig is only asked after the index.
abbrev pub resolve_later :
    RuleIndex → Label → ImportStatement → Resolution → Option (List Str) → Result Failure Resolution
resolve_later ix from imp_stm next none = err Failure.panic
resolve_later ix from imp_stm next (some paths) =
    with_error imp_stm (resolve_mapped ix from imp_stm paths next)

abbrev pub resolve_after_index :
    ImportStatement → Resolution → Result Failure Resolution → Result Failure Resolution
resolve_after_index imp_stm resolution_not_found next = next
resolve_after_index imp_stm (resolution_error ls) next = err (Failure.multiple_targets imp_stm ls)
resolve_after_index imp_stm resolution_none next = ok resolution_none
resolve_after_index imp_stm resolution_native_node next = ok resolution_native_node
resolve_after_index imp_stm (resolution_label ls) next = ok (resolution_label ls)
resolve_after_index imp_stm (resolution_file l) next = ok (resolution_file l)

-- resolveImport; `expand_paths` is ExpandPaths for the group, of a source path and an import path.
unfoldable pub resolve_import :
    RuleIndex
    → TypeScriptLang
    → (Str → Str → Option (List Str))
    → Label
    → ImportStatement
    → Result Failure Resolution
unfolding resolve_explicit_import_from_index resolve_mapped resolve_file
resolve_import ix ts expand_paths from imp_stm =
    resolve_after_index imp_stm (resolve_explicit_import_from_index ix from imp_stm) (
      resolve_later ix from imp_stm (resolve_file ts imp_stm.spec.imp)
        (expand_paths imp_stm.source_path imp_stm.import_path))

abbrev pub is_not_found : Resolution → Bool
is_not_found resolution_not_found = true
is_not_found _ = false

-- The package that the @types are for; `pkg` is the package of the import.
abbrev pub types_package : Resolution → Str → Option Str
types_package resolution_native_node pkg = some (codes "@types/node")
types_package _ pkg = if pkg == [] then none else to_at_types_package pkg

abbrev pub labels_or_nil : Option (List Label) → List Label
labels_or_nil none = []
labels_or_nil (some ls) = ls

abbrev pub types_of_matches : List FindResult → List Label → List Label
types_of_matches [] next = next
types_of_matches (m ∷ matches) next = m.label ∷ []

abbrev pub types_of_package :
    RuleIndex → TypeScriptLang → Resolution → Str → Option Str → List Label
types_of_package ix ts r imp none = []
types_of_package ix ts r imp (some types_pkg) =
    types_of_matches
      (ix.find_rules_by_import_with_config (record { lang = language_name; imp = types_pkg }))
      (if is_not_found r then labels_or_nil (lookup imp ts.module_types) else [])

-- resolveImportTypes
unfoldable pub resolve_import_types :
    RuleIndex → TypeScriptLang → Resolution → ImportStatement → List Label
unfolding parse_import_path to_at_types_package lookup
resolve_import_types ix ts r imp_stm =
    types_of_package ix ts r imp_stm.spec.imp
      (types_package r (parse_import_path imp_stm.spec.imp).0)
