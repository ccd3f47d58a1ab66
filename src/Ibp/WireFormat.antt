-- ===== src/Ibp/WireFormat.antt =====
-- convertWireCycle of client.go against the messages that protocol.go writes.
use text.Mathlib.TextEquality.{eq_iff}
use aspect_gazelle.Base.{
  String, Bool, ◌≡◌, refl, ap, sym, ◌∙◌, inl, inr, Bool-cases, eq_refl, true, false, [], ◌∷◌, none,
  some, arith, ◌==◌, string_eq,
}
use aspect_gazelle.Base.Int.{ℤ}
use aspect_gazelle.Base.Exec.{ok, err}
use aspect_gazelle.Ibp.Json.{Json, Fields, end, field, get, num, obj, null, as_num}
use aspect_gazelle.Ibp.Message.{
  Header, optional_text, header_fields, SourceInfoMap, cycle, cycle_sources, encode, encode_sources,
}
use aspect_gazelle.Ibp.Caps.{panic}
use aspect_gazelle.Ibp.Cycle.{wire_header, text_of, convert_wire_cycle, read_sources}

read_sources-encode_sources : (m : SourceInfoMap) → read_sources (encode_sources m) ≡ ok m
unfolding read_sources get
read_sources-encode_sources [] = refl
read_sources-encode_sources ((k, none) ∷ m) = rw (read_sources-encode_sources m)
read_sources-encode_sources ((k, some i) ∷ m) = rw (read_sources-encode_sources m) (ground arith)

get-optional_text_ne :
    (key j s : String) (rest : Fields)
    → (key == j) ≡ false
    → get (optional_text key s rest) j ≡ get rest j
unfolding get
get-optional_text_ne key j s rest e = elim (Bool-cases (s == "")) [
  | inl empty ↦ rw empty
  | inr given ↦ rw (given, e)
]

text_of-optional_text :
    (key s : String) (rest : Fields)
    → text_of (get rest key) ≡ ""
    → text_of (get (optional_text key s rest) key) ≡ s
unfolding get text_of
text_of-optional_text key s rest e = elim (Bool-cases (s == "")) [
  | inl empty ↦ rw empty (e ∙ sym ((eq_iff s "").0 empty))
  | inr given ↦ rw (given, eq_refl key)
]

abbrev pub head : String → String → String → Header
head kind trace span = record { kind = kind; trace_id = trace; span_id = span }

-- What the fields of a header leave visible of a message whose own fields are `rest`.
module _ (kind trace span : String) (rest : Fields) where
  pub get-header_fields :
      (key : String)
      → ("kind" == key) ≡ false
      → ("trace_id" == key) ≡ false
      → ("span_id" == key) ≡ false
      → get (header_fields (head kind trace span) rest) key ≡ get rest key
  unfolding get
  get-header_fields key k t s = rw k (
      get-optional_text_ne "trace_id" key trace (optional_text "span_id" span rest) t
      ∙ get-optional_text_ne "span_id" key span rest s)

  wire_header-header_fields :
      text_of (get rest "trace_id") ≡ ""
      → text_of (get rest "span_id") ≡ ""
      → wire_header (header_fields (head kind trace span) rest) ≡ head kind trace span
  unfolding get text_of wire_header
  wire_header-header_fields no_trace no_span =
      let t : text_of (get (header_fields (head kind trace span) rest) "trace_id") ≡ trace =
        text_of-optional_text "trace_id" trace (optional_text "span_id" span rest)
          (ap text_of (get-optional_text_ne "span_id" "trace_id" span rest refl) ∙ no_trace) in
      let s : text_of (get (header_fields (head kind trace span) rest) "span_id") ≡ span =
        ap text_of
          (get-optional_text_ne "trace_id" "span_id" trace (optional_text "span_id" span rest) refl)
        ∙ text_of-optional_text "span_id" span rest no_span in
      λ i. record { kind = kind; trace_id = t i; span_id = s i }

module _ (trace span scope : String) (id : ℤ) (m : SourceInfoMap) where
  abbrev cycle_fields : Fields
  cycle_fields =
      field "cycle_id" (num id)
        (optional_text "scope" scope (field "sources" (obj (encode_sources m)) end))

  abbrev message_fields : Fields
  message_fields = header_fields (head "CYCLE" trace span) cycle_fields

  kind-message_fields : text_of (get message_fields "kind") ≡ "CYCLE"
  unfolding get text_of
  kind-message_fields = refl

  cycle_id-message_fields : get message_fields "cycle_id" ≡ num id
  unfolding get
  cycle_id-message_fields =
      get-header_fields "CYCLE" trace span cycle_fields "cycle_id" refl refl refl

  sources-message_fields : get message_fields "sources" ≡ obj (encode_sources m)
  unfolding get
  sources-message_fields =
      get-header_fields "CYCLE" trace span cycle_fields "sources" refl refl refl
      ∙ get-optional_text_ne "scope" "sources" scope (field "sources" (obj (encode_sources m)) end)
          refl

  scope-message_fields : text_of (get message_fields "scope") ≡ scope
  unfolding get text_of
  scope-message_fields =
      ap text_of (get-header_fields "CYCLE" trace span cycle_fields "scope" refl refl refl)
      ∙ text_of-optional_text "scope" scope (field "sources" (obj (encode_sources m)) end) refl

  header-message_fields : wire_header message_fields ≡ head "CYCLE" trace span
  unfolding get text_of
  header-message_fields =
      wire_header-header_fields "CYCLE" trace span cycle_fields
        (ap text_of (get-optional_text_ne "scope" "trace_id" scope _ refl))
        (ap text_of (get-optional_text_ne "scope" "span_id" scope _ refl))

  pub convert_wire_cycle-cycle_sources :
      convert_wire_cycle (encode (cycle_sources (head "CYCLE" trace span) id scope m))
      ≡ ok (cycle_sources (head "CYCLE" trace span) id scope m)
  unfolding encode convert_wire_cycle text_of get as_num
  convert_wire_cycle-cycle_sources = rw (
    kind-message_fields,
    cycle_id-message_fields,
    sources-message_fields,
    scope-message_fields,
    header-message_fields,
    read_sources-encode_sources m,
  )

module _ (trace span : String) (id : ℤ) where
  abbrev reset_fields : Fields
  reset_fields = header_fields (head "CYCLE_RESET" trace span) (field "cycle_id" (num id) end)

  cycle_id-reset_fields : get reset_fields "cycle_id" ≡ num id
  unfolding get
  cycle_id-reset_fields =
      get-header_fields "CYCLE_RESET" trace span (field "cycle_id" (num id) end) "cycle_id" refl
        refl refl

  header-reset_fields : wire_header reset_fields ≡ head "CYCLE_RESET" trace span
  unfolding get text_of
  header-reset_fields = wire_header-header_fields "CYCLE_RESET" trace span _ refl refl

  convert_wire_cycle-cycle :
      convert_wire_cycle (encode (cycle (head "CYCLE_RESET" trace span) id))
      ≡ ok (cycle (head "CYCLE_RESET" trace span) id)
  unfolding encode convert_wire_cycle text_of get as_num
  convert_wire_cycle-cycle = rw (cycle_id-reset_fields, header-reset_fields)

-- The client reads the server's CYCLE and CYCLE_RESET messages back as they were written: trace
-- and span, cycle id, scope, and the map of sources with its optional flags.
pub convert_wire_cycle-encode :
    (trace span scope : String) (id : ℤ) (m : SourceInfoMap)
    → (convert_wire_cycle (encode (cycle_sources (head "CYCLE" trace span) id scope m))
        ≡ ok (cycle_sources (head "CYCLE" trace span) id scope m))
      × (convert_wire_cycle (encode (cycle (head "CYCLE_RESET" trace span) id))
          ≡ ok (cycle (head "CYCLE_RESET" trace span) id))
convert_wire_cycle-encode trace span scope id m =
    (convert_wire_cycle-cycle_sources trace span scope id m, convert_wire_cycle-cycle trace span id)

abbrev pub is_source_value : Json → Bool
is_source_value null = true
is_source_value (obj fs) = true
is_source_value _ = false

-- Some source of the message is neither null nor an object.
pub data HasBadSource : Fields → Type 0 where
  bad :
      (k : String) (v : Json) (fs : Fields)
      → is_source_value v ≡ false
      → HasBadSource (field k v fs)
  later : (k : String) (v : Json) {fs : Fields} → HasBadSource fs → HasBadSource (field k v fs)

read_sources-HasBadSource : (fs : Fields) → HasBadSource fs → read_sources fs ≡ err panic
unfolding read_sources
read_sources-HasBadSource end h = elim h [ ]
read_sources-HasBadSource (field k null fs) (HasBadSource.bad _ _ _ e) = cc
read_sources-HasBadSource (field k null fs) (HasBadSource.later _ _ h) =
    rw (read_sources-HasBadSource fs h)
read_sources-HasBadSource (field k (obj o) fs) (HasBadSource.bad _ _ _ e) = cc
read_sources-HasBadSource (field k (obj o) fs) (HasBadSource.later _ _ h) =
    rw (read_sources-HasBadSource fs h)
read_sources-HasBadSource (field k (Json.bool b) fs) h = refl
read_sources-HasBadSource (field k (num n) fs) h = refl
read_sources-HasBadSource (field k (Json.str s) fs) h = refl
read_sources-HasBadSource (field k (Json.arr xs) fs) h = refl

-- A CYCLE message with a cycle id crashes the client, whatever else it holds, if one of its
-- sources is neither null nor an object.
pub convert_wire_cycle-HasBadSource :
    (msg fs : Fields) (id : ℤ)
    → text_of (get msg "kind") ≡ "CYCLE"
    → get msg "cycle_id" ≡ num id
    → get msg "sources" ≡ obj fs
    → HasBadSource fs
    → convert_wire_cycle msg ≡ err panic
unfolding convert_wire_cycle as_num
convert_wire_cycle-HasBadSource msg fs id k c s h = rw (k, c, k, s, read_sources-HasBadSource fs h)
