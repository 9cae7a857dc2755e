-- ===== src/Domain/Failure.antt =====
-- The failure and its evidence: `TracebackFrame` to `DiagnosticResult` of
-- src/packages/shared/models.py.
use akesis.Common.{ℕ, String, Bool, Option, List}
use akesis.Domain.Status.{
  Datetime, Score, FailureCategory, WorkflowRunConclusion, RetrievalStatus, EvidenceSufficiency,
}

pub record TracebackFrame : Type 0 where
  pub file_path : String
  pub line_number : ℕ
  pub function_name : Option String
  pub code_line : Option String

pub record FailureSignal : Type 0 where
  pub category : FailureCategory
  pub error_type : String
  pub message : String
  pub target_file : Option String
  pub target_line : Option ℕ
  pub extracted_snippet : String
  pub traceback_frames : List TracebackFrame

pub record WorkflowRunEvent : Type 0 where
  pub event_type : String
  pub action : String
  pub repository_owner : String
  pub repository_name : String
  pub run_id : ℕ
  pub workflow_name : String
  pub head_branch : String
  pub head_sha : String
  pub run_url : String
  pub conclusion : WorkflowRunConclusion
  pub sender : Option String

pub record FailureContext : Type 0 where
  pub incident_id : String
  pub repository_owner : String
  pub repository_name : String
  pub run_id : ℕ
  pub workflow_name : String
  pub commit_sha : String
  pub branch : String
  pub run_url : String
  pub conclusion : WorkflowRunConclusion
  pub signal : FailureSignal
  pub raw_log_excerpt : String
  pub created_at : Datetime

pub record CodeEvidence : Type 0 where
  pub path : String
  pub start_line : ℕ
  pub end_line : ℕ
  pub target_line : Option ℕ
  pub content : String
  pub total_file_lines : ℕ
  pub language : String

pub record EvidencePackage : Type 0 where
  pub incident_id : String
  pub commit_sha : String
  pub failure_context : FailureContext
  pub code_evidences : List CodeEvidence
  pub retrieval_status : RetrievalStatus
  pub retrieval_notes : List String
  pub created_at : Datetime

pub record EvidenceItem : Type 0 where
  pub source : String
  pub observation : String
  pub file_path : Option String
  pub line_number : Option ℕ

pub record RemediationDirection : Type 0 where
  pub summary : String
  pub suggested_action : String
  pub risk_assessment : String

pub record DiagnosisProposal : Type 0 where
  pub category : FailureCategory
  pub root_cause : String
  pub evidence : List EvidenceItem
  pub target_file : Option String
  pub target_line : Option ℕ
  pub remediation_direction : RemediationDirection
  pub is_fixable : Bool
  pub confidence_score : Score
  pub evidence_sufficiency : EvidenceSufficiency
  pub reasoning : String

pub record DiagnosticResult : Type 0 where
  pub incident_id : String
  pub proposal : DiagnosisProposal
  pub human_review_required : Bool
  pub model_name : String
  pub execution_time_ms : ℕ
  pub evidence_package : Option EvidencePackage
  pub created_at : Datetime
