-- ===== src/Gemini/Reading.antt =====
-- What an answer of the model gives: the specification, and the reading of a response's body.
use akesis.Common.{
  ℕ, String, ◌≡◌, ◌≢◌, refl, ◌⊎◌, inl, inr, true, false, Option, none, some, [], ◌∷◌, nat_eq,
  string_eq, Bool-cases, codes, has_part, concat, is_blank, decimal,
}
use akesis.Calls.{Outcome, returned, raised}
use akesis.Http.{
  JsonValue, json_string, Response, is_success, json_object, get_field, json_array, item, json_bool,
  json_number, field, json_null, no_items, no_fields, list_value, dict_value,
}
use akesis.Gemini.Client.{
  LlmErrorClass, base_error, llm_auth_error, llm_rate_limit, llm_timeout, response_validation,
  LlmError, llm_error, ModelAnswer, model_response, model_timeout, model_request_error, GeminiApi,
  ResponseModel, GeminiClient, body_text, candidate_text, content_text, first_of_list, parsed,
  part_text, has_text, read_body, read_loaded, read_text, validated, schema_error, text_field,
  get_or, no_text, no_candidates,
}

module _ (api : GeminiApi) (self : GeminiClient) where
  -- An error of a response that is no success, by its status; a message that quotes the exception
  -- shows it without the key.
  abbrev pub IsStatusError : Response → LlmErrorClass → Option ℕ → String → Type 0
  IsStatusError res llm_auth_error status m =
      ((res.status_code ≡ 401) ⊎ (res.status_code ≡ 403)) × (status ≡ some res.status_code)
  IsStatusError res llm_rate_limit status m =
      (res.status_code ≡ 429) × (status ≡ some res.status_code)
  IsStatusError res base_error status m =
      (is_success res.status_code ≡ false)
      × (res.status_code ≢ 401)
      × (res.status_code ≢ 403)
      × (res.status_code ≢ 429)
      × (status ≡ some res.status_code)
      × ((quoted : String) × (m
            ≡ concat ("Gemini API HTTP error " ∷ decimal res.status_code ∷ ": " ∷ quoted ∷ []))
          × (has_part (codes quoted) (codes self.api_key) ≡ false))
  IsStatusError res class status m = ⊥

  module _ {A : Type 0} (response_model : ResponseModel A) where
    -- A value is what the class accepted of the JSON text in the first part of the first
    -- candidate.
    abbrev pub IsGenerated : Response → A → Type 0
    IsGenerated res a =
        (body : JsonValue) × (s : String) × (v : JsonValue) × (api.loads res.text ≡ returned body)
        × (body_text api body ≡ returned (json_string s))
        × (api.loads s ≡ returned v)
        × (response_model.validate v ≡ returned a)

    -- Each answer gives a value, or an error of the class that fits it.
    abbrev pub Answers : ModelAnswer → Outcome LlmError A → Type 0
    Answers (model_response res) (returned a) =
        (is_success res.status_code ≡ true) × IsGenerated res a
    Answers (model_response res) (raised (llm_error class m status)) =
        IsStatusError res class status m
        ⊎ ((is_success res.status_code ≡ true) × (class ≡ response_validation) × (status ≡ none))
    Answers model_timeout (raised (llm_error class m status)) = class ≡ llm_timeout
    Answers (model_request_error e) (raised (llm_error class m status)) =
        (class ≡ base_error)
        × ((quoted : String) × (m
              ≡ concat ("Network error connecting to Gemini API: " ∷ quoted ∷ []))
            × (has_part (codes quoted) (codes self.api_key) ≡ false))
    Answers answer o = ⊥

abbrev IsShapeError : Outcome LlmError JsonValue → Type 0
IsShapeError (returned v) = Unit
IsShapeError (raised (llm_error class m status)) = (class ≡ response_validation) × (status ≡ none)
IsShapeError (raised schema_error) = ⊥

module _ (api : GeminiApi) where
  first-shape :
      (otherwise : Outcome LlmError JsonValue) (f : JsonValue → Outcome LlmError JsonValue)
      → IsShapeError otherwise
      → ((v : JsonValue) → IsShapeError (f v))
      → (v : JsonValue) → IsShapeError (first_of_list api otherwise f v)
  first-shape o f h k (json_array no_items) = h
  first-shape o f h k (json_array (item x xs)) = k x
  first-shape o f h k json_null = h
  first-shape o f h k (json_bool false) = h
  first-shape o f h k (json_bool true) = (refl, refl)
  first-shape o f h k (json_string s) = elim (Bool-cases (is_blank s)) [
    | inl e ↦ rw e h
    | inr e ↦ rw e (refl, refl)
  ]
  first-shape o f h k (json_number n) = (refl, refl)
  first-shape o f h k (json_object no_fields) = h
  first-shape o f h k (json_object (field l v fs)) = (refl, refl)

  field-shape : (o : Option JsonValue) → IsShapeError (text_field api o)
  field-shape none = (refl, refl)
  field-shape (some v) = tt

  part-shape : (v : JsonValue) → IsShapeError (part_text api v)
  part-shape (json_object fs) = field-shape (get_field "text" fs)
  part-shape (json_array xs) = elim (Bool-cases (has_text xs)) [
    | inl e ↦ rw e (refl, refl)
    | inr e ↦ rw e (refl, refl)
  ]
  part-shape json_null = (refl, refl)
  part-shape (json_bool b) = (refl, refl)
  part-shape (json_number n) = (refl, refl)
  part-shape (json_string s) = elim (Bool-cases (has_part (codes s) (codes "text"))) [
    | inl e ↦ rw e (refl, refl)
    | inr e ↦ rw e (refl, refl)
  ]

  content-shape : (v : JsonValue) → IsShapeError (content_text api v)
  content-shape (json_object fs) =
      first-shape (no_text api) (part_text api) (refl, refl) part-shape
        (get_or "parts" (list_value []) fs)
  content-shape (json_array xs) = (refl, refl)
  content-shape json_null = (refl, refl)
  content-shape (json_bool b) = (refl, refl)
  content-shape (json_number n) = (refl, refl)
  content-shape (json_string s) = (refl, refl)

  candidate-shape : (v : JsonValue) → IsShapeError (candidate_text api v)
  candidate-shape (json_object fs) = content-shape (get_or "content" (dict_value []) fs)
  candidate-shape (json_array xs) = (refl, refl)
  candidate-shape json_null = (refl, refl)
  candidate-shape (json_bool b) = (refl, refl)
  candidate-shape (json_number n) = (refl, refl)
  candidate-shape (json_string s) = (refl, refl)

  body-shape : (v : JsonValue) → IsShapeError (body_text api v)
  body-shape (json_object fs) =
      first-shape (no_candidates api) (candidate_text api) (refl, refl) candidate-shape
        (get_or "candidates" (list_value []) fs)
  body-shape (json_array xs) = (refl, refl)
  body-shape json_null = (refl, refl)
  body-shape (json_bool b) = (refl, refl)
  body-shape (json_number n) = (refl, refl)
  body-shape (json_string s) = (refl, refl)

module _ (api : GeminiApi) (self : GeminiClient) {A : Type 0} (response_model : ResponseModel A)
    (res : Response) (success : is_success res.status_code ≡ true) where
  abbrev Read : Outcome LlmError A → Type 0
  Read o = Answers api self response_model (model_response res) o

  validated-Read :
      (body : JsonValue) (s : String) (v : JsonValue)
      → api.loads res.text ≡ returned body
      → body_text api body ≡ returned (json_string s)
      → api.loads s ≡ returned v
      → (o : Outcome String A) → response_model.validate v ≡ o
      → Read (validated api response_model o)
  validated-Read body s v b t l (returned a) e = (success, (body, s, v, b, t, l, e))
  validated-Read body s v b t l (raised m) e = inr (success, refl, refl)

  parsed-Read :
      (body : JsonValue) (s : String)
      → api.loads res.text ≡ returned body
      → body_text api body ≡ returned (json_string s)
      → (o : Outcome String JsonValue) → api.loads s ≡ o
      → Read (parsed api response_model o)
  parsed-Read body s b t (returned v) l =
      validated-Read body s v b t l (response_model.validate v) refl
  parsed-Read body s b t (raised m) l = inr (success, refl, refl)

  text-Read :
      (body : JsonValue)
      → api.loads res.text ≡ returned body
      → (o : Outcome LlmError JsonValue) → body_text api body ≡ o
      → IsShapeError o
      → Read (read_text api response_model o)
  text-Read body b (returned (json_string s)) t h = parsed-Read body s b t (api.loads s) refl
  text-Read body b (returned (json_object fs)) t h = inr (success, refl, refl)
  text-Read body b (returned (json_array xs)) t h = inr (success, refl, refl)
  text-Read body b (returned json_null) t h = inr (success, refl, refl)
  text-Read body b (returned (json_bool c)) t h = inr (success, refl, refl)
  text-Read body b (returned (json_number n)) t h = inr (success, refl, refl)
  text-Read body b (raised (llm_error class m status)) t h = inr (success, h.0, h.1)
  text-Read body b (raised schema_error) t h = elim h [ ]

  loaded-Read :
      (o : Outcome String JsonValue)
      → api.loads res.text ≡ o
      → Read (read_loaded api response_model o)
  loaded-Read (returned body) b = text-Read body b (body_text api body) refl (body-shape api body)
  loaded-Read (raised m) b = inr (success, refl, refl)

  pub read_body-Read : Read (read_body api response_model res)
  unfolding read_body
  read_body-Read = loaded-Read (api.loads res.text) refl
