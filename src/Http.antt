-- ===== src/Http.antt =====
-- HTTP as the clients of src/packages/sdk use it: a request, and what `httpx` answers. A number of
-- a JSON text is kept as it is spelled.
use akesis.Common.{
  ℕ, String, Bool, Option, none, some, List, [], ◌∷◌, ◌==◌, nat_eq, string_eq, if◌then◌else◌,
  within,
}

mutual
  pub data JsonValue : Type 0 where
    json_null : JsonValue
    json_bool : Bool → JsonValue
    json_number json_string : String → JsonValue
    json_array : JsonItems → JsonValue
    json_object : JsonFields → JsonValue

  pub data JsonItems : Type 0 where
    no_items : JsonItems
    item : JsonValue → JsonItems → JsonItems

  pub data JsonFields : Type 0 where
    no_fields : JsonFields
    field : String → JsonValue → JsonFields → JsonFields

-- `[x, ...]`
abbrev pub json_list : List JsonValue → JsonItems
json_list [] = no_items
json_list (x ∷ xs) = item x (json_list xs)

-- `{k: x, ...}`
abbrev pub json_dict : List (String × JsonValue) → JsonFields
json_dict [] = no_fields
json_dict ((k, x) ∷ xs) = field k x (json_dict xs)

abbrev pub dict_value : List (String × JsonValue) → JsonValue
dict_value xs = json_object (json_dict xs)

abbrev pub list_value : List JsonValue → JsonValue
list_value xs = json_array (json_list xs)

-- the value of the last field of a name
abbrev pub get_field : String → JsonFields → Option JsonValue
get_field k no_fields = none
get_field k (field l x fs) = elim (get_field k fs) [
  | some y ↦ some y
  | none ↦ if k == l then some x else none
]

pub data Method : Type 0 where
  http_get http_post : Method

pub record Request : Type 0 where
  pub method : Method
  pub url : String
  pub params : List (String × String)
  pub headers : List (String × String)
  -- whether a redirect is followed; the answer is then the last one
  pub follow_redirects : Bool
  pub payload : Option JsonValue

pub record Response : Type 0 where
  pub status_code : ℕ
  pub text : String

-- A response, or the message of an exception of the connection.
pub data Exchange : Type 0 where
  responded : Response → Exchange
  unreachable : String → Exchange

-- `res.is_success`, what `raise_for_status` asks
abbrev pub is_success : ℕ → Bool
is_success status = within 200 299 status
