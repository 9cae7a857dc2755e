-- ===== src/Domain/Proposal.antt =====
-- The fix and its validation: `PatchHunk` to `ValidationResult` of src/packages/shared/models.py.
use akesis.Common.{ℕ, String, Bool, Option, List}
use akesis.Domain.Status.{Datetime, Score, ℤ, ProposalStatus, RiskLevel, ValidationStatus}

pub record PatchHunk : Type 0 where
  pub old_start : ℕ
  pub old_lines : ℕ
  pub new_start : ℕ
  pub new_lines : ℕ
  pub header : String
  pub lines : List String

pub record FilePatch : Type 0 where
  pub path : String
  pub old_path : Option String
  pub new_path : Option String
  pub hunks : List PatchHunk
  pub raw_diff : String

pub record RawFixProposal : Type 0 where
  pub explanation : String
  pub target_files : List String
  pub unified_diff : String
  pub assumptions : List String
  pub risk_assessment : String
  pub estimated_risk_level : RiskLevel
  pub confidence_score : Score

pub record FixProposal : Type 0 where
  pub proposal_id : String
  pub incident_id : String
  pub diagnosis_id : Option String
  pub commit_sha : String
  pub status : ProposalStatus
  pub is_valid : Bool
  pub rejection_reasons : List String
  pub unified_diff : String
  pub file_patches : List FilePatch
  pub target_files : List String
  pub rationale : String
  pub assumptions : List String
  pub risk_level : RiskLevel
  pub has_dependency_changes : Bool
  pub confidence_score : Score
  pub created_at : Datetime

pub record ValidationResult : Type 0 where
  pub validation_id : String
  pub proposal_id : String
  pub incident_id : String
  pub commit_sha : String
  pub status : ValidationStatus
  pub command_executed : String
  pub exit_code : Option ℤ
  pub stdout : String
  pub stderr : String
  pub duration_ms : ℕ
  pub timed_out : Bool
  pub failure_reason : Option String
  pub created_at : Datetime
