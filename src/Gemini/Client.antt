-- ===== src/Gemini/Client.antt =====
-- class GeminiClient: one request, and what is made of its answer.
use akesis.Common.{
  ℕ, String, true, false, ◌||◌, Option, none, some, List, [], ◌∷◌, ◌++◌, ◌==◌, nat_eq, string_eq,
  has_part, codes, Bool, if◌then◌else◌, or_else, concat, is_blank, text_or, decimal, strip_right,
  replace_text,
}
use akesis.Config.{Settings, Thousandths}
use akesis.Calls.{Outcome, Program, answered, choose, finish, raised, returned, throw, ◌>>=◌}
use akesis.Http.{
  JsonItems, JsonValue, json_null, json_bool, json_number, json_string, json_array, json_object,
  no_items, item, JsonFields, no_fields, field, get_field, dict_value, list_value, Request,
  Response, Method, is_success,
}
use akesis.Gemini.Schema.{dereference_json_schema}

-- LLMError and its subclasses; `base` is the class itself.
pub data LlmErrorClass : Type 0 where
  base_error llm_auth_error llm_rate_limit llm_timeout response_validation : LlmErrorClass

-- An error of the module, or an exception of the schema's dereferencing.
pub data LlmError : Type 0 where
  llm_error : LlmErrorClass → String → Option ℕ → LlmError
  schema_error : LlmError

-- The answer of a call: a response, `TimeoutException`, or another `RequestError`.
pub data ModelAnswer : Type 0 where
  model_response : Response → ModelAnswer
  model_timeout : ModelAnswer
  model_request_error : String → ModelAnswer

pub record ModelCall : Type 0 where
  pub request : Request
  pub answer : ModelAnswer

pub record GeminiApi : Type 0 where
  pub send : Request → ℕ → ModelAnswer
  -- `json.loads`, or the message of its exception
  pub loads : String → Outcome String JsonValue
  -- `str` of `httpx.HTTPStatusError` of a response
  pub status_text : Response → String
  -- `str` of a value
  pub render : JsonValue → String
  -- the message of the error for a value of an unexpected shape
  pub shape_text : JsonValue → String
  -- f"{temperature}" and f"{timeout}"
  pub format_float : Thousandths → String
  -- how many references may stand in one another before RecursionError
  pub depth : ℕ

-- A pydantic class: its schema, and its validation, or the message of the exception.
pub record ResponseModel (A : Type 0) : Type 0 where
  pub schema : JsonFields
  pub validate : JsonValue → Outcome String A

pub record GeminiClient : Type 0 where
  pub api_key : String
  pub model_name : String
  pub base_url : String
  pub timeout : Thousandths

abbrev pub current_model : String → String
current_model model =
    if model == "gemini-1.5-flash"
    then "gemini-2.5-flash"
    else if model == "gemini-1.5-pro"
    then "gemini-2.5-pro"
    else model

-- `__init__`
abbrev pub gemini_client :
    Settings → Option String → Option String → Option String → Option Thousandths → GeminiClient
gemini_client settings api_key model base_url timeout = record {
  api_key = or_else api_key settings.gemini_api_key;
  model_name = current_model (text_or model settings.gemini_model);
  base_url = strip_right (λ c. c == b'/') (text_or base_url settings.gemini_api_url);
  timeout = elim timeout [
    | none ↦ settings.gemini_timeout_seconds
    | some t ↦ if t == 0 then settings.gemini_timeout_seconds else t
  ];
}

abbrev pub Steps : Type 0 → Type 0
Steps A = Program ModelCall LlmError A

abbrev pub refuse : {A : Type 0} → LlmErrorClass → List String → Option ℕ → Outcome LlmError A
refuse class pieces status = raised (llm_error class (concat pieces) status)

abbrev pub settle : {A : Type 0} → Outcome LlmError A → Steps A
settle (returned a) = finish a
settle (raised e) = throw e

-- `body.get(k, default)`
abbrev pub get_or : String → JsonValue → JsonFields → JsonValue
get_or k default fs = or_else (get_field k fs) default

-- `"text" in xs`
abbrev pub has_text : JsonItems → Bool
has_text no_items = false
has_text (item (json_string s) xs) = let rest = has_text xs in s == "text" || rest
has_text (item v xs) = has_text xs

module _ (api : GeminiApi) where
  -- a value that the code does not look for ends in an exception, which is wrapped
  abbrev pub misshapen : JsonValue → Outcome LlmError JsonValue
  misshapen v =
      refuse response_validation
        ("Failed to validate response against schema: " ∷ api.shape_text v ∷ []) none

  abbrev pub no_text : Outcome LlmError JsonValue
  no_text = refuse response_validation ("Gemini candidate contains no text parts" ∷ []) none

  abbrev pub no_candidates : Outcome LlmError JsonValue
  no_candidates = refuse response_validation ("Gemini returned no response candidates" ∷ []) none

  abbrev pub text_field : Option JsonValue → Outcome LlmError JsonValue
  text_field none = no_text
  text_field (some v) = returned v

  -- `"text" not in parts[0]` also asks a text or a list; where the test lets them through, the index
  -- `"text"` does not fit them
  abbrev pub part_text : JsonValue → Outcome LlmError JsonValue
  part_text (json_object fs) = text_field (get_field "text" fs)
  part_text (json_string s) =
      if has_part (codes s) (codes "text") then misshapen (json_string s) else no_text
  part_text (json_array xs) = if has_text xs then misshapen (json_array xs) else no_text
  part_text v = misshapen v

  -- the first element; `otherwise` where the value is falsy
  abbrev pub first_of_list :
      Outcome LlmError JsonValue
      → (JsonValue → Outcome LlmError JsonValue)
      → JsonValue
      → Outcome LlmError JsonValue
  first_of_list otherwise f (json_array no_items) = otherwise
  first_of_list otherwise f (json_array (item x xs)) = f x
  first_of_list otherwise f json_null = otherwise
  first_of_list otherwise f (json_bool false) = otherwise
  first_of_list otherwise f (json_bool true) = misshapen (json_bool true)
  first_of_list otherwise f (json_string s) =
      if is_blank s then otherwise else misshapen (json_string s)
  first_of_list otherwise f (json_number n) = misshapen (json_number n)
  first_of_list otherwise f (json_object no_fields) = otherwise
  first_of_list otherwise f (json_object (field k v fs)) = misshapen (json_object (field k v fs))

  abbrev pub content_text : JsonValue → Outcome LlmError JsonValue
  content_text (json_object fs) =
      first_of_list no_text part_text (get_or "parts" (list_value []) fs)
  content_text v = misshapen v

  abbrev pub candidate_text : JsonValue → Outcome LlmError JsonValue
  candidate_text (json_object fs) = content_text (get_or "content" (dict_value []) fs)
  candidate_text v = misshapen v

  -- `candidates[0]["content"]["parts"][0]["text"]`
  abbrev pub body_text : JsonValue → Outcome LlmError JsonValue
  body_text (json_object fs) =
      first_of_list no_candidates candidate_text (get_or "candidates" (list_value []) fs)
  body_text v = misshapen v

  abbrev pub invalid_json : {A : Type 0} → String → Outcome LlmError A
  invalid_json m = refuse response_validation ("Gemini returned invalid JSON: " ∷ m ∷ []) none

  module _ {A : Type 0} (response_model : ResponseModel A) where
    abbrev pub validated : Outcome String A → Outcome LlmError A
    validated (returned a) = returned a
    validated (raised m) =
        refuse response_validation ("Failed to validate response against schema: " ∷ m ∷ []) none

    abbrev pub parsed : Outcome String JsonValue → Outcome LlmError A
    parsed (returned v) = validated (response_model.validate v)
    parsed (raised m) = invalid_json m

    abbrev pub read_text : Outcome LlmError JsonValue → Outcome LlmError A
    read_text (returned (json_string s)) = parsed (api.loads s)
    read_text (returned v) =
        refuse response_validation
          ("Failed to validate response against schema: " ∷ api.shape_text v ∷ []) none
    read_text (raised e) = raised e

    abbrev pub read_loaded : Outcome String JsonValue → Outcome LlmError A
    read_loaded (returned body) = read_text (body_text body)
    read_loaded (raised m) = invalid_json m

    -- the second `try` block
    unfoldable pub read_body : Response → Outcome LlmError A
    read_body res = read_loaded (api.loads res.text)

module _ (api : GeminiApi) (self : GeminiClient) where
  -- `payload`, of a prompt, a system instruction, a temperature and a schema
  abbrev pub payload_of : String → Option String → Thousandths → JsonValue → JsonValue
  payload_of prompt system_instruction temperature schema =
      let text = λ (s : String). dict_value (("text", json_string s) ∷ []) in
      let request =
        (
          "contents",
          list_value (
              dict_value
                (("role", json_string "user") ∷ ("parts", list_value (text prompt ∷ [])) ∷ [])
              ∷ []),
        )
        ∷ (
          "generationConfig",
          dict_value (
              ("temperature", json_number (api.format_float temperature))
              ∷ ("responseMimeType", json_string "application/json")
              ∷ ("responseSchema", schema)
              ∷ []),
        )
        ∷ [] in
      let instruction = or_else system_instruction "" in
      dict_value (
        request
        ++ (if is_blank instruction
            then []
            else (
              "systemInstruction",
              dict_value (("parts", list_value (text instruction ∷ [])) ∷ []),
            )
              ∷ []))

  unfoldable pub request_of : String → Option String → Thousandths → JsonValue → Request
  request_of prompt system_instruction temperature schema = record {
    method = Method.http_post;
    url = concat (self.base_url ∷ "/models/" ∷ self.model_name ∷ ":generateContent" ∷ []);
    params = [];
    headers = ("Content-Type", "application/json") ∷ ("x-goog-api-key", self.api_key) ∷ [];
    follow_redirects = false;
    payload = some (payload_of prompt system_instruction temperature schema);
  }

  abbrev pub redact : String → String
  redact s = replace_text s self.api_key "[REDACTED]"

  -- the first `try` block, after the call, and its `except` clauses
  unfoldable pub check_status : ModelAnswer → Outcome LlmError Response
  check_status model_timeout =
      refuse llm_timeout
        ("Gemini API request timed out after " ∷ api.format_float self.timeout ∷ "s" ∷ []) none
  check_status (model_request_error m) =
      refuse base_error ("Network error connecting to Gemini API: " ∷ redact m ∷ []) none
  check_status (model_response res) =
      let status = res.status_code in
      if status == 401 || status == 403
      then refuse llm_auth_error
          ("Gemini API authentication failed with status " ∷ decimal status ∷ []) (some status)
      else if status == 429
      then refuse llm_rate_limit ("Gemini API rate limit exceeded (HTTP 429)" ∷ []) (some 429)
      else if is_success status
      then returned res
      else refuse base_error
          ("Gemini API HTTP error " ∷ decimal status ∷ ": " ∷ redact (api.status_text res) ∷ [])
          (some status)

  module _ {A : Type 0} (response_model : ResponseModel A) (prompt : String)
      (system_instruction : Option String) (temperature : Thousandths) where
    abbrev pub send_schema : Option JsonValue → Steps A
    send_schema none = throw schema_error
    send_schema (some schema) =
        let request = request_of prompt system_instruction temperature schema in
        do
          answer ←
              answered (λ answer. record { request = request; answer = answer }) (api.send request)
          response ← settle (check_status answer)
          settle (read_body api response_model response)

    unfoldable pub generate_structured : Steps A
    generate_structured =
        choose (is_blank self.api_key)
          (throw (
            llm_error llm_auth_error "Gemini API key is not configured (GEMINI_API_KEY missing)"
              none))
          (send_schema (dereference_json_schema api.render api.depth response_model.schema))
