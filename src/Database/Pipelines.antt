-- ===== src/Database/Pipelines.antt =====
-- class PipelineRepository of src/packages/database/repositories.py.
pub mod Stores
use akesis.Common.{ℕ, String, Bool, false, ◌||◌, Option, none, some, ◌==◌, nat_eq, string_eq}
use akesis.Domain.{Datetime, PipelineRecord, PipelineStatus}
use akesis.Runtime.{M, ◌>>=◌, now}
use akesis.Database.Table.{Table, select_one, update_one, insert_row}
use akesis.Database.Mutations.{set_if}

abbrev pub pipelines : Table PipelineRecord
pipelines = record { rows = λ w. w.pipelines; store = λ rows w. record w { pipelines = rows } }

abbrev pub has_id : String → PipelineRecord → Bool
has_id pipeline_id r = r.pipeline_id == pipeline_id

abbrev pub has_incident : String → PipelineRecord → Bool
has_incident incident_id r = r.incident_id == incident_id

abbrev pub has_approval : String → PipelineRecord → Bool
has_approval approval_id r = elim r.approval_id [ none ↦ false | some a ↦ a == approval_id ]

-- the primary key, and the unique column `incident_id`
abbrev pub clashes : PipelineRecord → PipelineRecord → Bool
clashes r' r = has_id r'.pipeline_id r || has_incident r'.incident_id r

unfoldable pub create_pipeline : PipelineRecord → M PipelineRecord
unfolding insert_row
create_pipeline r = insert_row pipelines (clashes r) r

unfoldable pub get_pipeline : String → M (Option PipelineRecord)
unfolding select_one
get_pipeline pipeline_id = select_one pipelines (has_id pipeline_id)

unfoldable pub get_by_incident_id : String → M (Option PipelineRecord)
unfolding select_one
get_by_incident_id incident_id = select_one pipelines (has_incident incident_id)

unfoldable pub get_by_approval_id : String → M (Option PipelineRecord)
unfolding select_one
get_by_approval_id approval_id = select_one pipelines (has_approval approval_id)

-- the optional columns of `update_pipeline_state`; `none` leaves a column alone
pub record Changes : Type 0 where
  pub diagnosis_id : Option String
  pub proposal_id : Option String
  pub approval_id : Option String
  pub mutation_id : Option String
  pub pr_number : Option ℕ
  pub pr_url : Option String
  pub failure_reason : Option String
  pub failure_context_json : Option String
  pub proposal_json : Option String
  pub validation_json : Option String

abbrev pub no_changes : Changes
no_changes = record {
  diagnosis_id = none;
  proposal_id = none;
  approval_id = none;
  mutation_id = none;
  pr_number = none;
  pr_url = none;
  failure_reason = none;
  failure_context_json = none;
  proposal_json = none;
  validation_json = none;
}

abbrev pub change : Datetime → PipelineStatus → Changes → PipelineRecord → PipelineRecord
change t status c r = record r {
  status = status;
  updated_at = t;
  diagnosis_id = set_if c.diagnosis_id r.diagnosis_id;
  proposal_id = set_if c.proposal_id r.proposal_id;
  approval_id = set_if c.approval_id r.approval_id;
  mutation_id = set_if c.mutation_id r.mutation_id;
  pr_number = set_if c.pr_number r.pr_number;
  pr_url = set_if c.pr_url r.pr_url;
  failure_reason = set_if c.failure_reason r.failure_reason;
  failure_context_json = set_if c.failure_context_json r.failure_context_json;
  proposal_json = set_if c.proposal_json r.proposal_json;
  validation_json = set_if c.validation_json r.validation_json;
}

unfoldable pub update_pipeline_state : String → PipelineStatus → Changes → M (Option PipelineRecord)
unfolding update_one
update_pipeline_state pipeline_id status c = do
  t ← now
  update_one pipelines (has_id pipeline_id) (change t status c)
