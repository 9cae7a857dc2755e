-- ===== src/Database/Incidents/Raw.antt =====
-- The values that the dashboard reads, and a failure context read field by field.
use akesis.Common.{
  ℕ, String, Bool, true, false, not, Option, none, some, List, [], ◌∷◌, ◌==◌, nat_eq, string_eq,
  if◌then◌else◌, or_else, select, concat, is_blank, ◌>>=◌,
}
use akesis.Domain.{
  ApprovalRecord, ApprovalStatus, PipelineRecord, PipelineStatus, FailureContext, FixProposal,
  ValidationResult, Datetime, ℤ,
}
use akesis.Http.{
  JsonValue, json_null, json_bool, json_number, json_string, json_array, json_object, JsonFields,
  no_fields, field, no_items, item, get_field,
}

-- `json.loads`, the truth of a number, and what pydantic makes of a value for a field of type
-- `int | None`: a line, or an exit code.
pub record JsonReader : Type 0 where
  pub loads : String → Option JsonValue
  pub truthy_number : String → Bool
  pub as_line : JsonValue → Option (Option ℕ)
  pub as_exit : JsonValue → Option (Option ℤ)

pub record IncidentSummary : Type 0 where
  pub incident_id : String
  pub repository : String
  pub run_id : ℕ
  pub commit_sha : String
  pub workflow_name : String
  pub branch : String
  pub category : String
  pub error_type : String
  pub failure_message : String
  pub current_stage : PipelineStatus
  pub approval_status : Option ApprovalStatus
  pub approval_id : Option String
  pub target_file : Option String
  pub target_line : Option ℕ
  pub pr_number : Option ℕ
  pub pr_url : Option String
  pub created_at : Datetime
  pub updated_at : Datetime

pub record IncidentDetail : Type 0 where
  pub summary : IncidentSummary
  pub diff_content : Option String
  pub failure_context : Option FailureContext
  pub fix_proposal : Option FixProposal
  pub validation_result : Option ValidationResult
  pub traceback_excerpt : Option String
  pub sandbox_command : Option String
  pub sandbox_exit_code : Option ℤ
  pub sandbox_stdout : Option String
  pub sandbox_stderr : Option String

-- the variables that the failure context sets
pub record ContextFields : Type 0 where
  pub workflow_name : Option String
  pub branch : Option String
  pub category : Option String
  pub error_type : Option String
  pub failure_message : Option String
  pub target_file : Option (Option String)
  pub target_line : Option (Option ℕ)
  pub excerpt : Option (Option String)
  pub context : Option FailureContext

-- a field of type `str`, and of type `str | None`
abbrev pub as_text : JsonValue → Option String
as_text (json_string s) = some s
as_text v = none

abbrev pub as_optional_text : JsonValue → Option (Option String)
as_optional_text (json_string s) = some (some s)
as_optional_text json_null = some none
as_optional_text v = none

-- `s or None`
abbrev pub text_or_none : String → Option String
text_or_none s = if is_blank s then none else some s

-- `LEFT OUTER JOIN` with the approvals, by their key
abbrev pub joined_status : List ApprovalRecord → Option String → Option ApprovalStatus
joined_status rows none = none
joined_status rows (some approval_id) =
    elim (select (λ (a : ApprovalRecord). a.approval_id == approval_id) rows) [
      | [] ↦ none
      | a ∷ others ↦ some a.status
    ]

module _ (reader : JsonReader) where
  -- whether Python takes a value for true
  abbrev pub truthy : JsonValue → Bool
  truthy json_null = false
  truthy (json_bool b) = b
  truthy (json_number n) = reader.truthy_number n
  truthy (json_string s) = not (is_blank s)
  truthy (json_array no_items) = false
  truthy (json_array (item x xs)) = true
  truthy (json_object no_fields) = false
  truthy (json_object (field k x fs)) = true

  -- `d.get(k)`
  abbrev pub get_value : String → JsonFields → JsonValue
  get_value k fs = or_else (get_field k fs) json_null

  -- `d.get(k) or default`, as a text
  abbrev pub get_text : String → Option String → JsonFields → Option String
  get_text k default fs = if truthy (get_value k fs) then as_text (get_value k fs) else default

  abbrev pub default_fields : PipelineRecord → ContextFields
  default_fields r = record {
    workflow_name = some "Unknown Workflow";
    branch = some "unknown";
    category = some "unknown";
    error_type = some "UnknownError";
    failure_message = some (or_else r.failure_reason "");
    target_file = some none;
    target_line = some none;
    excerpt = some none;
    context = none;
  }

  -- `raw_log_excerpt or signal.get("extracted_snippet")`
  abbrev pub raw_excerpt : JsonFields → JsonFields → JsonValue
  raw_excerpt fs ss =
      if truthy (get_value "raw_log_excerpt" fs)
      then get_value "raw_log_excerpt" fs
      else get_value "extracted_snippet" ss

  abbrev pub read_signal : PipelineRecord → JsonFields → JsonFields → ContextFields → ContextFields
  read_signal r fs ss d = record d {
    category = get_text "category" d.category ss;
    error_type = get_text "error_type" d.error_type ss;
    failure_message =
        get_text "message" (get_text "failure_message" (some (or_else r.failure_reason "")) ss) ss;
    target_file = as_optional_text (get_value "target_file" ss);
    target_line = reader.as_line (get_value "target_line" ss);
    excerpt = as_optional_text (raw_excerpt fs ss);
  }

  -- `signal = fc_data.get("signal") or {}`; what is set before an exception stays set
  abbrev pub read_raw_signal :
      PipelineRecord → JsonFields → JsonValue → ContextFields → ContextFields
  read_raw_signal r fs (json_object ss) d = read_signal r fs ss d
  read_raw_signal r fs v d = if truthy v then d else read_signal r fs no_fields d

  abbrev pub read_raw : PipelineRecord → ContextFields → Option JsonValue → ContextFields
  read_raw r d (some (json_object fs)) =
      let named = record d {
        workflow_name = get_text "workflow_name" d.workflow_name fs;
        branch = get_text "branch" d.branch fs;
      } in
      read_raw_signal r fs (get_value "signal" fs) named
  read_raw r d other = d

  abbrev pub summary_of :
      List ApprovalRecord → PipelineRecord → ContextFields → Option IncidentSummary
  summary_of rows r d = do
    workflow_name ← d.workflow_name
    branch ← d.branch
    category ← d.category
    error_type ← d.error_type
    failure_message ← d.failure_message
    target_file ← d.target_file
    target_line ← d.target_line
    some (record {
      incident_id = r.incident_id;
      repository = concat (r.repository_owner ∷ "/" ∷ r.repository_name ∷ []);
      run_id = r.run_id;
      commit_sha = r.commit_sha;
      workflow_name = workflow_name;
      branch = branch;
      category = category;
      error_type = error_type;
      failure_message = failure_message;
      current_stage = r.status;
      approval_status = joined_status rows r.approval_id;
      approval_id = r.approval_id;
      target_file = target_file;
      target_line = target_line;
      pr_number = r.pr_number;
      pr_url = r.pr_url;
      created_at = r.created_at;
      updated_at = r.updated_at;
    })
