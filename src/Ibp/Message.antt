-- ===== src/Ibp/Message.antt =====
-- protocol.go: the messages, and the JSON object that encoding/json makes of each.
use aspect_gazelle.Base.{
  String, Bool, Option, none, some, List, [], ◌∷◌, ◌==◌, string_eq, if◌then◌else◌,
}
use aspect_gazelle.Base.Int.{ℤ}
use aspect_gazelle.Base.Assoc.{Assoc}
use aspect_gazelle.Ibp.Json.{
  Json, null, bool, num, str, arr, obj, Items, nil, cons, Fields, end, field,
}
use aspect_gazelle.Ibp.Caps.{Caps, CapValue, scopes, flag, raw}

-- `Message`, embedded by every other message.
pub record Header : Type 0 where
  pub kind : String
  pub trace_id : String
  pub span_id : String

abbrev pub of_kind : String → Header
of_kind k = record { kind = k; trace_id = ""; span_id = "" }

pub record SourceInfo : Type 0 where
  pub is_symlink : Option Bool
  pub is_source : Option Bool

-- A path with a nil pointer, or with what is known of it.
abbrev pub SourceInfoMap : Type 0
SourceInfoMap = Assoc String (Option SourceInfo)

pub data Message : Type 0 where
  negotiate : Header → List ℤ → Message
  negotiate_response : Header → ℤ → Message
  cap : Header → Caps → Message
  exit : Header → String → Message
  cycle : Header → ℤ → Message
  cycle_sources : Header → ℤ → String → SourceInfoMap → Message

abbrev pub header : Message → Header
header (negotiate h vs) = h
header (negotiate_response h v) = h
header (cap h c) = h
header (exit h d) = h
header (cycle h i) = h
header (cycle_sources h i s m) = h

-- `omitempty` on a string, and on a pointer.
abbrev pub optional_text : String → String → Fields → Fields
optional_text key s rest = if s == "" then rest else field key (str s) rest

abbrev pub optional_bool : String → Option Bool → Fields → Fields
optional_bool key none rest = rest
optional_bool key (some b) rest = field key (bool b) rest

abbrev pub header_fields : Header → Fields → Fields
header_fields h rest =
    field "kind" (str h.kind)
      (optional_text "trace_id" h.trace_id (optional_text "span_id" h.span_id rest))

abbrev pub encode_versions : List ℤ → Items
encode_versions [] = nil
encode_versions (v ∷ vs) = cons (num v) (encode_versions vs)

abbrev pub encode_texts : List String → Items
encode_texts [] = nil
encode_texts (s ∷ ss) = cons (str s) (encode_texts ss)

abbrev pub encode_cap_value : CapValue → Json
encode_cap_value (scopes ss) = arr (encode_texts ss)
encode_cap_value (flag b) = bool b
encode_cap_value (raw j) = j

abbrev pub encode_caps : Caps → Fields
encode_caps [] = end
encode_caps ((k, v) ∷ cs) = field k (encode_cap_value v) (encode_caps cs)

abbrev pub encode_source : Option SourceInfo → Json
encode_source none = null
encode_source (some i) =
    obj (optional_bool "is_symlink" i.is_symlink (optional_bool "is_source" i.is_source end))

abbrev pub encode_sources : SourceInfoMap → Fields
encode_sources [] = end
encode_sources ((k, v) ∷ m) = field k (encode_source v) (encode_sources m)

unfoldable pub encode : Message → Fields
encode (negotiate h vs) = header_fields h (field "versions" (arr (encode_versions vs)) end)
encode (negotiate_response h v) = header_fields h (field "version" (num v) end)
encode (cap h c) = header_fields h (field "caps" (obj (encode_caps c)) end)
encode (exit h d) = header_fields h (field "description" (str d) end)
encode (cycle h i) = header_fields h (field "cycle_id" (num i) end)
encode (cycle_sources h i s m) = header_fields h (
    field "cycle_id" (num i)
      (optional_text "scope" s (field "sources" (obj (encode_sources m)) end)))
