-- ===== src/Database/Incidents/Shown.antt =====
-- What the detail of an incident shows of its rows.
use akesis.Common.{
  ◌≡◌, refl, ap, false, String, Option, none, some, List, [], ◌∷◌, ◌==◌, string_eq, is_blank, All,
  select,
}
use akesis.Domain.{PipelineRecord, FailureContext, FixProposal, ValidationResult, ℤ}
use akesis.Runtime.{World, Result, ok, err}
use akesis.Services.{Json}
use akesis.Database.Incidents.{
  JsonReader, IncidentDetail, ContextFields, ProposalFields, ValidationFields, text_or_none,
  joined_status, default_fields, parsed_fields, context_fields, proposal_fields, no_validation,
  validation_fields, proposal_of, validation_of, detail_of, found_detail, one_detail, get_incident,
  one_detail,
}

-- The column is empty, or pydantic reads it.
abbrev pub IsReadable : {A : Type 0} → (String → Result A) → Option String → Type 0
IsReadable load none = Unit
IsReadable {A} load (some text) = (is_blank text ≡ false) × ((a : A) × (load text ≡ ok a))

abbrev pub read_value : {A : Type 0} → Result A → Option A
read_value (ok a) = some a
read_value (err e) = none

-- what the column holds
abbrev pub stored : {A : Type 0} → (String → Result A) → Option String → Option A
stored load none = none
stored load (some text) = read_value (load text)

abbrev pub diff_of : Option FixProposal → Option String
diff_of none = none
diff_of (some p) = text_or_none p.unified_diff

abbrev pub exit_of : Option ValidationResult → Option ℤ
exit_of none = none
exit_of (some v) = v.exit_code

-- The detail shows the row: the columns as they are stored, the diff of the proposal unless it is
-- empty, the exit code of the validation, and the status of the approval that the row names.
abbrev pub IsDetail :
    World
    → PipelineRecord
    → IncidentDetail
    → Option FailureContext
    → Option FixProposal
    → Option ValidationResult
    → Type 0
IsDetail w r d c p v =
    (d.summary.incident_id ≡ r.incident_id)
    × (d.summary.current_stage ≡ r.status)
    × (d.summary.approval_status ≡ joined_status w.approvals r.approval_id)
    × (d.failure_context ≡ c)
    × (d.fix_proposal ≡ p)
    × (d.diff_content ≡ diff_of p)
    × (d.validation_result ≡ v)
    × (d.sandbox_exit_code ≡ exit_of v)

abbrev pub IsShown : Json → World → PipelineRecord → IncidentDetail → Type 0
IsShown json w r d =
    IsDetail w r d (stored json.load_context r.failure_context_json)
      (stored json.load_proposal r.proposal_json) (stored json.load_validation r.validation_json)

pub record IsRowReadable (json : Json) (r : PipelineRecord) : Type 0 where
  pub context : IsReadable json.load_context r.failure_context_json
  pub proposal : IsReadable json.load_proposal r.proposal_json
  pub validation : IsReadable json.load_validation r.validation_json

-- Nothing is shown without a row; of the rows of the incident, the first is shown. Nothing is
-- changed.
abbrev pub Shows :
    Json → World → List PipelineRecord → Result (Option IncidentDetail) × World → Type 0
Shows json w [] (result, w') = (result ≡ ok none) × (w' ≡ w)
Shows json w (r ∷ rest) (result, w') =
    ((d : IncidentDetail) × (result ≡ ok (some d)) × IsShown json w r d) × (w' ≡ w)

module _ (reader : JsonReader) (json : Json) where
  abbrev fields_of : PipelineRecord → Option FailureContext → ContextFields
  fields_of r none = default_fields reader r
  fields_of r (some c) = parsed_fields reader json r c

  abbrev proposal_fields_of : Option FixProposal → ProposalFields
  proposal_fields_of none = record { proposal = none; diff = some none }
  proposal_fields_of (some p) = proposal_of reader json "" (ok p)

  abbrev validation_fields_of : Option ValidationResult → ValidationFields
  validation_fields_of none = no_validation reader json
  validation_fields_of (some v) = validation_of reader json "" (ok v)

  detail_of-IsDetail :
      (w : World) (r : PipelineRecord) (c : Option FailureContext) (p : Option FixProposal)
      (v : Option ValidationResult)
      → (d : IncidentDetail) × (detail_of reader json w.approvals r
            (fields_of r c)
            (proposal_fields_of p)
            (validation_fields_of v)
          ≡ some d)
        × IsDetail w r d c p v
  detail_of-IsDetail w r none none none =
      (_, refl, (refl, refl, refl, refl, refl, refl, refl, refl))
  detail_of-IsDetail w r none none (some v) =
      (_, refl, (refl, refl, refl, refl, refl, refl, refl, refl))
  detail_of-IsDetail w r none (some p) none =
      (_, refl, (refl, refl, refl, refl, refl, refl, refl, refl))
  detail_of-IsDetail w r none (some p) (some v) =
      (_, refl, (refl, refl, refl, refl, refl, refl, refl, refl))
  detail_of-IsDetail w r (some c) none none =
      (_, refl, (refl, refl, refl, refl, refl, refl, refl, refl))
  detail_of-IsDetail w r (some c) none (some v) =
      (_, refl, (refl, refl, refl, refl, refl, refl, refl, refl))
  detail_of-IsDetail w r (some c) (some p) none =
      (_, refl, (refl, refl, refl, refl, refl, refl, refl, refl))
  detail_of-IsDetail w r (some c) (some p) (some v) =
      (_, refl, (refl, refl, refl, refl, refl, refl, refl, refl))

  context-stored :
      (r : PipelineRecord) (column : Option String)
      → IsReadable json.load_context column
      → context_fields reader json r column ≡ fields_of r (stored json.load_context column)
  context-stored r none h = refl
  context-stored r (some text) (b, (c, l)) = rw (b, l) refl

  proposal-stored :
      (column : Option String)
      → IsReadable json.load_proposal column
      → proposal_fields reader json column ≡ proposal_fields_of (stored json.load_proposal column)
  proposal-stored none h = refl
  proposal-stored (some text) (b, (p, l)) = rw (b, l) refl

  validation-stored :
      (column : Option String)
      → IsReadable json.load_validation column
      → validation_fields reader json column
        ≡ validation_fields_of (stored json.load_validation column)
  validation-stored none h = refl
  validation-stored (some text) (b, (v, l)) = rw (b, l) refl

  found-Shows :
      (w : World) (rows : List PipelineRecord)
      → All (IsRowReadable json) rows
      → Shows json w rows (found_detail reader json w.approvals rows, w)
  found-Shows w [] h = (refl, refl)
  found-Shows w (r ∷ rows) h =
      let (d, e, shown) =
        detail_of-IsDetail w r (stored json.load_context r.failure_context_json)
          (stored json.load_proposal r.proposal_json)
          (stored json.load_validation r.validation_json) in
      let found : detail_of reader json w.approvals r
            (context_fields reader json r r.failure_context_json)
            (proposal_fields reader json r.proposal_json)
            (validation_fields reader json r.validation_json)
          ≡ some d =
        rw
          (
            context-stored r r.failure_context_json h.0.context,
            proposal-stored r.proposal_json h.0.proposal,
            validation-stored r.validation_json h.0.validation,
          )
          e in
      ((d, ap (one_detail reader json) found, shown), refl)

  -- Of an incident whose rows hold only JSON that pydantic reads, `get_incident` never fails:
  -- without a row it returns `None`, otherwise the detail of the first row, which shows the row's
  -- stage, the status of the approval that it names, the failure context, proposal and validation
  -- that it stores, the proposal's diff unless that is empty, and the validation's exit code. It
  -- changes nothing.
  pub get_incident-Shows :
      (incident_id : String) (w : World)
      → All
          (IsRowReadable json)
          (select (λ (r : PipelineRecord). r.incident_id == incident_id) w.pipelines)
      → Shows json w
          (select (λ (r : PipelineRecord). r.incident_id == incident_id) w.pipelines)
          (get_incident reader json incident_id w)
  unfolding get_incident
  get_incident-Shows incident_id w h =
      found-Shows w (select (λ (r : PipelineRecord). r.incident_id == incident_id) w.pipelines) h
