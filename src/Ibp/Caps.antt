-- ===== src/Ibp/Caps.antt =====
-- protocol.go: protocol versions, capabilities, and how a peer's capabilities are read.
use aspect_gazelle.Base.{
  String, Bool, false, Option, none, some, List, [], ◌∷◌, ◌||◌, ◌==◌, string_eq, any, if◌then◌else◌,
}
use aspect_gazelle.Base.Int.{ℤ, pos, int_eq, at_least}
use aspect_gazelle.Base.Exec.{Result, ok, err, bind_result}
use aspect_gazelle.Base.Assoc.{Assoc, insert}
use aspect_gazelle.Ibp.Json.{
  Json, null, Items, nil, cons, Fields, end, field, as_arr, as_str, as_bool, as_obj,
}

abbrev pub version_2 : ℤ
version_2 = pos 2

abbrev pub version_1 : ℤ
version_1 = pos 1

abbrev pub legacy_version_0 : ℤ
legacy_version_0 = pos 0

-- abazelSupportedProtocolVersions, most preferred first.
abbrev pub supported_versions : List ℤ
supported_versions = version_2 ∷ version_1 ∷ legacy_version_0 ∷ []

abbrev pub is_supported : ℤ → Bool
is_supported v = any (λ w. w == v) supported_versions

unfoldable pub has_cap_message : ℤ → Bool
has_cap_message v = at_least 1 v

unfoldable pub has_scope_cap : ℤ → Bool
has_scope_cap v = at_least 1 v

unfoldable pub has_reset_message : ℤ → Bool
has_reset_message v = at_least 2 v

-- The errors of the package, one for each place that makes one.
pub data Error : Type 0 where
  not_connected already_connected not_serving already_serving : Error
  write_failed read_failed listen_failed dial_failed accept_failed not_accepted close_failed : Error
  not_ready : String → Error
  expected : String → Error
  invalid_version no_versions invalid_versions : Error
  unsupported_version : ℤ → Error
  unsupported_versions : Error
  invalid_caps invalid_scope_list invalid_scope no_scopes : Error
  unknown_scope : String → Error
  reset_unsupported : ℤ → Error
  invalid_cycle_id unexpected_cycle_id unexpected_kind : Error
  caps_unsupported : ℤ → Error
  client_already_connected client_not_connected : Error
  during : String → Error → Error
  panic : Error

-- The values of the map of capabilities: the list of scopes, the OTEL flag, or what was received.
pub data CapValue : Type 0 where
  scopes : List String → CapValue
  flag : Bool → CapValue
  raw : Json → CapValue

abbrev pub Caps : Type 0
Caps = Assoc String CapValue

abbrev pub is_scope : String → Bool
is_scope s = s == "sources" || s == "runfiles"

-- The loop of readScopeCapList.
unfoldable pub read_scopes : Items → Result Error (List String)
read_scopes nil = ok []
read_scopes (cons v vs) = elim (as_str v) [
  | none ↦ err invalid_scope
  | some s ↦
      if is_scope s
      then (bind_result (read_scopes vs) (λ rest. ok (s ∷ rest)))
      else err (unknown_scope s)
]

abbrev pub at_least_one : List String → Result Error (List String)
at_least_one [] = err no_scopes
at_least_one (s ∷ ss) = ok (s ∷ ss)

unfoldable pub read_scope_cap_list : Json → Result Error (List String)
unfolding read_scopes
read_scope_cap_list val = elim (as_arr val) [
  | none ↦ err invalid_scope_list
  | some xs ↦ bind_result (read_scopes xs) at_least_one
]

unfoldable pub read_cap_bool : Json → Bool
read_cap_bool val = elim (as_bool val) [ none ↦ false | some b ↦ b ]

-- The body of the loop over the received capabilities.
unfoldable pub read_cap : String → Json → Caps → Result Error Caps
unfolding read_scope_cap_list read_cap_bool insert
read_cap key val caps =
    if key == "scope"
    then (bind_result (read_scope_cap_list val) (λ ss. ok (insert "scope" (scopes ss) caps)))
    else if key == "otel"
    then ok (insert "otel" (flag (read_cap_bool val)) caps)
    else ok (insert key (raw val) caps)

unfoldable pub read_caps_loop : Fields → Caps → Result Error Caps
unfolding read_cap
read_caps_loop end caps = ok caps
read_caps_loop (field key val rest) caps =
    bind_result (read_cap key val caps) (λ caps'. read_caps_loop rest caps')

abbrev pub default_caps : Caps
default_caps = ("scope", scopes ("runfiles" ∷ [])) ∷ []

abbrev read_caps_object : Option Fields → Result Error Caps
unfolding read_caps_loop
read_caps_object none = err invalid_caps
read_caps_object (some fs) = read_caps_loop fs default_caps

-- readCapsRequestMap; readCapsResponseMap is the same function.
unfoldable pub read_caps_request_map : Json → Result Error Caps
unfolding read_caps_loop
read_caps_request_map null = ok default_caps
read_caps_request_map raw_caps = read_caps_object (as_obj raw_caps)
