-- ===== src/Gemini/Generation.antt =====
-- What `generate_structured` returns and raises.
use akesis.Common.{
  String, ◌≡◌, ◌⊎◌, true, false, Option, none, some, List, [], ◌∷◌, string_eq, codes, is_blank,
  apart,
}
use akesis.Calls.{Outcome, returned, raised}
use akesis.Config.{Thousandths}
use akesis.Http.{JsonFields, json_object, Response, is_success}
use akesis.Gemini.Schema.{dereference_json_schema}
use akesis.Gemini.Reading.{Answers}
use akesis.Gemini.Client.{
  llm_auth_error, LlmError, llm_error, ModelAnswer, model_response, ModelCall, GeminiApi,
  ResponseModel, GeminiClient, request_of,
}

-- The key, and the text that stands for it in a message, share no piece.
abbrev pub IsHideable : String → Type 0
IsHideable key = apart (codes "[REDACTED]") (codes key) ≡ true

module _ (api : GeminiApi) (self : GeminiClient) {A : Type 0}
    (response_model : ResponseModel A) where
  -- One request was sent, over the schema of the class, with the key in a header; its answer gave
  -- this value, or an error that fits it.
  abbrev pub IsSent :
      String → Option String → Thousandths → Outcome LlmError A → List ModelCall → Type 0
  IsSent prompt system_instruction temperature o vs =
      (schema : JsonFields) × (answer : ModelAnswer) × (dereference_json_schema api.render api.depth
          response_model.schema
        ≡ some (json_object schema))
      × (vs
          ≡ record {
            request =
                request_of api self prompt system_instruction temperature (json_object schema);
            answer = answer;
          }
            ∷ [])
      × Answers api self response_model answer o

  module _ (hideable : IsHideable self.api_key) (keyed : is_blank self.api_key ≡ false) where
    -- an answer is refused with an error that fits it, or is a response of success
    abbrev IsChecked : ModelAnswer → Outcome LlmError Response → Type 0
    IsChecked (model_response res) (returned r) = (r ≡ res) × (is_success res.status_code ≡ true)
    IsChecked answer (returned r) = ⊥
    IsChecked answer (raised e) = Answers api self response_model answer (raised e)

  -- Without a key nothing is sent, and the error is one of authentication; with one, the request is
  -- sent.
  abbrev pub Generates :
      String → Option String → Thousandths → Outcome LlmError A → List ModelCall → Type 0
  Generates prompt system_instruction temperature o vs =
      ((is_blank self.api_key ≡ true)
        × (vs ≡ [])
        × ((m : String) × (o ≡ raised (llm_error llm_auth_error m none))))
      ⊎ ((is_blank self.api_key ≡ false) × IsSent prompt system_instruction temperature o vs)
