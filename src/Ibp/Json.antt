-- ===== src/Ibp/Json.antt =====
-- encoding/json as the protocol sees it: what Go decodes into `any` and `map[string]any`.
use aspect_gazelle.Base.{String, Bool, Option, none, some, ◌==◌, string_eq}
use aspect_gazelle.Base.{if◌then◌else◌}
use aspect_gazelle.Base.Int.{ℤ}

-- A number is kept as the integer that Go's conversion `int(f)` of the float64 gives, which is all
-- that the program observes of it.
mutual
  pub data Json : Type 0 where
    null : Json
    bool : Bool → Json
    num : ℤ → Json
    str : String → Json
    arr : Items → Json
    obj : Fields → Json

  pub data Items : Type 0 where
    nil : Items
    cons : Json → Items → Items

  pub data Fields : Type 0 where
    end : Fields
    field : String → Json → Fields → Fields

-- msg[key]: a missing key gives nil, as a JSON null does.
unfoldable pub get : Fields → String → Json
get end key = null
get (field k v fs) key = if k == key then v else get fs key

-- v.(string), v.(float64), v.(bool), v.([]any), v.(map[string]any), each with its `ok`.
abbrev pub as_str : Json → Option String
as_str (str s) = some s
as_str _ = none

unfoldable pub as_num : Json → Option ℤ
as_num (num n) = some n
as_num _ = none

abbrev pub as_bool : Json → Option Bool
as_bool (bool b) = some b
as_bool _ = none

abbrev pub as_arr : Json → Option Items
as_arr (arr xs) = some xs
as_arr _ = none

abbrev pub as_obj : Json → Option Fields
as_obj (obj fs) = some fs
as_obj _ = none

-- v == "text" for an interface value.
abbrev pub is_text : Json → String → Bool
is_text (str s) t = s == t
is_text _ t = Bool.false
