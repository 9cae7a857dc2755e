-- ===== src/Database/Incidents.antt =====
-- class IncidentRepository of src/packages/database/repositories.py: what the dashboard reads. A
-- column that holds JSON is read as its pydantic class, and where that fails field by field; a
-- missing value of an inner `Option` is one that pydantic refuses for the field.
mod Raw
pub mod Shown
use akesis.Common.{
  ℕ, String, Bool, Option, none, some, List, [], ◌∷◌, ◌==◌, nat_eq, string_eq, if◌then◌else◌,
  or_else, select, is_blank, ◌>>=◌, take, skip,
}
use akesis.Domain.{
  ApprovalRecord, ApprovalStatus, PipelineRecord, PipelineStatus, FailureContext, FixProposal,
  ValidationResult, Datetime, category_value, ℤ,
}
use akesis.Runtime.{M, World, Result, ok, err, ErrorKind}
use akesis.Services.{Json}
use akesis.Http.{
  JsonValue, json_null, json_bool, json_number, json_string, json_array, json_object, JsonFields,
  no_fields, field, no_items, item, get_field,
}
use akesis.Database.Listing.{QueryOrder, ordered_rows}
pub use Raw.*

-- the local variables of the proposal and of the validation
pub record ProposalFields : Type 0 where
  pub proposal : Option FixProposal
  pub diff : Option (Option String)

pub record ValidationFields : Type 0 where
  pub validation : Option ValidationResult
  pub command : Option (Option String)
  pub exit_code : Option (Option ℤ)
  pub stdout : Option (Option String)
  pub stderr : Option (Option String)

-- a value of the response model, or pydantic's ValidationError
abbrev pub validated : {A : Type 0} → Option A → Result A
validated none = err (record { kind = ErrorKind.unexpected; message = "ValidationError" })
validated (some a) = ok a

module _ (reader : JsonReader) (json : Json) where
  abbrev pub parsed_fields : PipelineRecord → FailureContext → ContextFields
  parsed_fields r c = record {
    workflow_name = some c.workflow_name;
    branch = some c.branch;
    category = some (category_value c.signal.category);
    error_type = some c.signal.error_type;
    failure_message =
        some (if is_blank c.signal.message then or_else r.failure_reason "" else c.signal.message);
    target_file = some c.signal.target_file;
    target_line = some c.signal.target_line;
    excerpt = some (
        if is_blank c.raw_log_excerpt
        then text_or_none c.signal.extracted_snippet
        else some c.raw_log_excerpt);
    context = some c;
  }

  abbrev pub context_of : PipelineRecord → String → Result FailureContext → ContextFields
  context_of r text (ok c) = parsed_fields r c
  context_of r text (err e) = read_raw reader r (default_fields reader r) (reader.loads text)

  -- a column that is missing or empty is left aside
  abbrev pub context_fields : PipelineRecord → Option String → ContextFields
  context_fields r column =
      let text = or_else column "" in
      if is_blank text then default_fields reader r else context_of r text (json.load_context text)

  abbrev pub raw_diff : Option JsonValue → Option (Option String)
  raw_diff (some (json_object fs)) = as_optional_text (get_value reader "unified_diff" fs)
  raw_diff other = some none

  abbrev pub proposal_of : String → Result FixProposal → ProposalFields
  proposal_of text (ok p) = record { proposal = some p; diff = some (text_or_none p.unified_diff) }
  proposal_of text (err e) = record { proposal = none; diff = raw_diff (reader.loads text) }

  abbrev pub proposal_fields : Option String → ProposalFields
  proposal_fields column =
      let text = or_else column "" in
      if is_blank text
      then record { proposal = none; diff = some none }
      else proposal_of text (json.load_proposal text)

  abbrev pub no_validation : ValidationFields
  no_validation = record {
    validation = none;
    command = some none;
    exit_code = some none;
    stdout = some none;
    stderr = some none;
  }

  abbrev pub raw_validation : Option JsonValue → ValidationFields
  raw_validation (some (json_object fs)) = record {
    validation = none;
    command = as_optional_text (get_value reader "command_executed" fs);
    exit_code = reader.as_exit (get_value reader "exit_code" fs);
    stdout = as_optional_text (get_value reader "stdout" fs);
    stderr = as_optional_text (get_value reader "stderr" fs);
  }
  raw_validation other = no_validation

  abbrev pub validation_of : String → Result ValidationResult → ValidationFields
  validation_of text (ok v) = record {
    validation = some v;
    command = some (some v.command_executed);
    exit_code = some v.exit_code;
    stdout = some (some v.stdout);
    stderr = some (some v.stderr);
  }
  validation_of text (err e) = raw_validation (reader.loads text)

  abbrev pub validation_fields : Option String → ValidationFields
  validation_fields column =
      let text = or_else column "" in
      if is_blank text then no_validation else validation_of text (json.load_validation text)

  abbrev pub detail_of :
      List ApprovalRecord
      → PipelineRecord
      → ContextFields
      → ProposalFields
      → ValidationFields
      → Option IncidentDetail
  detail_of rows r c p v = do
    summary ← summary_of reader rows r c
    excerpt ← c.excerpt
    diff ← p.diff
    command ← v.command
    exit_code ← v.exit_code
    stdout ← v.stdout
    stderr ← v.stderr
    some (record {
      summary = summary;
      diff_content = diff;
      failure_context = c.context;
      fix_proposal = p.proposal;
      validation_result = v.validation;
      traceback_excerpt = excerpt;
      sandbox_command = command;
      sandbox_exit_code = exit_code;
      sandbox_stdout = stdout;
      sandbox_stderr = stderr;
    })

  abbrev pub one_detail : Option IncidentDetail → Result (Option IncidentDetail)
  one_detail none = validated none
  one_detail (some d) = ok (some d)

  -- the first row of the query, if there is one
  abbrev pub found_detail :
      List ApprovalRecord → List PipelineRecord → Result (Option IncidentDetail)
  found_detail rows [] = ok none
  found_detail rows (r ∷ rest) = one_detail (
      detail_of rows r (context_fields r r.failure_context_json) (proposal_fields r.proposal_json)
        (validation_fields r.validation_json))

  unfoldable pub get_incident : String → M (Option IncidentDetail)
  get_incident incident_id w = (
    found_detail w.approvals
        (select (λ (r : PipelineRecord). r.incident_id == incident_id) w.pipelines),
    w,
  )

  abbrev pub raw_fields : PipelineRecord → ContextFields
  raw_fields r =
      let text = or_else r.failure_context_json "" in
      if is_blank text
      then default_fields reader r
      else read_raw reader r (default_fields reader r) (reader.loads text)

  abbrev pub summaries_of :
      List ApprovalRecord → List PipelineRecord → Option (List IncidentSummary)
  summaries_of rows [] = some []
  summaries_of rows (r ∷ rest) = do
    summary ← summary_of reader rows r (raw_fields r)
    summaries ← summaries_of rows rest
    some (summary ∷ summaries)

  unfoldable pub list_incidents : QueryOrder → ℕ → ℕ → M (List IncidentSummary)
  list_incidents database limit offset w = (
    validated
        (summaries_of w.approvals (take limit (skip offset (ordered_rows database w.pipelines)))),
    w,
  )
