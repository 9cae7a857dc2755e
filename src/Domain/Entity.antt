-- ===== src/Domain/Entity.antt =====
-- The persisted entities: `ApprovalRecord`, `MutationRecord` and `PipelineRecord` of
-- src/packages/shared/models.py.
use akesis.Common.{ℕ, String, Option}
use akesis.Domain.Status.{
  Datetime, ApprovalStatus, MutationStatus, PipelineStatus, ValidationStatus,
}

pub record ApprovalRecord : Type 0 where
  pub approval_id : String
  pub incident_id : String
  pub diagnosis_id : Option String
  pub proposal_id : String
  pub commit_sha : String
  pub status : ApprovalStatus
  pub slack_channel_id : Option String
  pub slack_message_ts : Option String
  pub requested_at : Datetime
  pub decided_at : Option Datetime
  pub decided_by : Option String
  pub decision_reason : Option String
  pub expires_at : Option Datetime
  pub created_at : Datetime
  pub updated_at : Datetime

pub record MutationRecord : Type 0 where
  pub mutation_id : String
  pub proposal_id : String
  pub approval_id : String
  pub incident_id : String
  pub repository_owner : String
  pub repository_name : String
  pub base_commit_sha : String
  pub branch_name : String
  pub resulting_commit_sha : Option String
  pub validation_status : Option ValidationStatus
  pub pr_number : Option ℕ
  pub pr_url : Option String
  pub status : MutationStatus
  pub failure_reason : Option String
  pub created_at : Datetime
  pub updated_at : Datetime

pub record PipelineRecord : Type 0 where
  pub pipeline_id : String
  pub incident_id : String
  pub repository_owner : String
  pub repository_name : String
  pub run_id : ℕ
  pub commit_sha : String
  pub status : PipelineStatus
  pub diagnosis_id : Option String
  pub proposal_id : Option String
  pub approval_id : Option String
  pub mutation_id : Option String
  pub pr_number : Option ℕ
  pub pr_url : Option String
  pub failure_reason : Option String
  pub failure_context_json : Option String
  pub proposal_json : Option String
  pub validation_json : Option String
  pub created_at : Datetime
  pub updated_at : Datetime

pub record PipelineSummary : Type 0 where
  pub pipeline_id : String
  pub incident_id : String
  pub repository_owner : String
  pub repository_name : String
  pub run_id : ℕ
  pub commit_sha : String
  pub status : PipelineStatus
  pub diagnosis_id : Option String
  pub proposal_id : Option String
  pub approval_id : Option String
  pub mutation_id : Option String
  pub pr_number : Option ℕ
  pub pr_url : Option String
  pub failure_reason : Option String
  pub created_at : Datetime
  pub updated_at : Datetime
