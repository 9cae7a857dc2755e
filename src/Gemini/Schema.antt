-- ===== src/Gemini/Schema.antt =====
-- `dereference_json_schema`, to a depth of references after which Python raises RecursionError.
use akesis.Common.{
  ℕ, zero, suc, String, Option, none, some, ◌==◌, nat_eq, string_eq, if◌then◌else◌, codes, has_part,
}
use mathlib.Core.Option
use Prim.Native.Char.{code}
use akesis.Http.{
  JsonValue, json_null, json_bool, json_number, json_string, json_array, json_object, JsonItems,
  no_items, item, JsonFields, no_fields, field, get_field,
}

-- `s.split("/")[-1]`
abbrev pub last_segment : String → String
last_segment String.[] = String.[]
last_segment (String.◌∷◌ c s) =
    let rest = last_segment s in
    if has_part (codes s) (codes "/") then rest else if code c == b'/' then s else String.◌∷◌ c s

-- `resolved[k] = v`
abbrev pub set_field : String → JsonValue → JsonFields → JsonFields
set_field k v no_fields = field k v no_fields
set_field k v (field l x fs) =
    let rest = set_field k v fs in if k == l then field k v fs else field l x rest

abbrev pub set_fields : JsonFields → JsonFields → JsonFields
set_fields fs no_fields = fs
set_fields fs (field k v gs) = set_fields (set_field k v fs) gs

-- `schema_copy.pop(k)`
abbrev pub without_field : String → JsonFields → JsonFields
without_field k no_fields = no_fields
without_field k (field l x fs) =
    let rest = without_field k fs in if k == l then rest else field l x rest

-- A missing result is an exception.
abbrev pub object_of : Option JsonFields → Option JsonValue
object_of none = none
object_of (some fs) = some (json_object fs)

abbrev pub array_of : Option JsonItems → Option JsonValue
array_of none = none
array_of (some xs) = some (json_array xs)

abbrev pub item_onto : Option JsonValue → Option JsonItems → Option JsonItems
item_onto (some x) (some xs) = some (item x xs)
item_onto _ _ = none

abbrev pub field_onto : String → Option JsonValue → Option JsonFields → Option JsonFields
field_onto k (some x) (some fs) = some (field k x fs)
field_onto k _ _ = none

-- what is set on a resolved reference; only a dictionary takes fields
abbrev pub overlay : Option JsonValue → Option JsonFields → Option JsonValue
overlay (some (json_object fs)) (some gs) = some (json_object (set_fields fs gs))
overlay (some v) (some no_fields) = some v
overlay _ _ = none

module _ (render : JsonValue → String) where
  -- `str(node["$ref"])`
  abbrev pub ref_text : JsonValue → String
  ref_text (json_string s) = s
  ref_text v = render v

  -- `ref_key`, of a dictionary that has `$ref`
  unfoldable pub ref_key : JsonFields → Option String
  ref_key fs = Option.map (λ v. last_segment (ref_text v)) (get_field "$ref" fs)

  -- what a reference stands for, where its key is among the definitions
  abbrev pub target :
      (String → Option (Option JsonValue)) → Option String → Option (Option JsonValue)
  target follow none = none
  target follow (some k) = follow k

  abbrev pub inline :
      Option (Option JsonValue) → Option JsonFields → Option JsonFields → Option JsonValue
  inline none fields others = object_of fields
  inline (some resolved) fields others = overlay resolved others

  -- `_resolve`, over what it makes of a definition
  unfoldable mutual
    pub resolve_value : (String → Option (Option JsonValue)) → JsonValue → Option JsonValue
    resolve_value follow (json_object fs) =
        inline (target follow (ref_key fs)) (resolve_fields follow fs) (resolve_others follow fs)
    resolve_value follow (json_array xs) = array_of (resolve_items follow xs)
    resolve_value follow json_null = some json_null
    resolve_value follow (json_bool b) = some (json_bool b)
    resolve_value follow (json_number n) = some (json_number n)
    resolve_value follow (json_string s) = some (json_string s)

    pub resolve_items : (String → Option (Option JsonValue)) → JsonItems → Option JsonItems
    resolve_items follow no_items = some no_items
    resolve_items follow (item x xs) = item_onto (resolve_value follow x) (resolve_items follow xs)

    pub resolve_fields : (String → Option (Option JsonValue)) → JsonFields → Option JsonFields
    resolve_fields follow no_fields = some no_fields
    resolve_fields follow (field k x fs) =
        field_onto k (resolve_value follow x) (resolve_fields follow fs)

    -- the fields beside `$ref`
    pub resolve_others : (String → Option (Option JsonValue)) → JsonFields → Option JsonFields
    resolve_others follow no_fields = some no_fields
    resolve_others follow (field k x fs) =
        let value = resolve_value follow x in
        let rest = resolve_others follow fs in if k == "$ref" then rest else field_onto k value rest

  unfoldable pub resolve : ℕ → JsonFields → JsonValue → Option JsonValue
  resolve zero defs v = resolve_value (λ k. Option.map (λ d. none) (get_field k defs)) v
  resolve (suc depth) defs v =
      resolve_value (λ k. Option.map (λ d. resolve depth defs d) (get_field k defs)) v

  abbrev pub definitions : JsonFields → JsonFields
  definitions fs = elim (get_field "$defs" fs) [ some (json_object defs) ↦ defs | _ ↦ no_fields ]

  unfoldable pub dereference_json_schema : ℕ → JsonFields → Option JsonValue
  dereference_json_schema depth schema =
      resolve depth (definitions schema) (json_object (without_field "$defs" schema))
