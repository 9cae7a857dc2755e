-- ===== src/Domain/Status.antt =====
-- The enumerations of src/packages/shared/models.py, their texts and their equality.
use akesis.Common.{
  ℕ, zero, String, ◌≡◌, ◌↔◌, Bool, true, false, Option, some, arith, Eq, nat_eq, string_eq,
}

abbrev pub Datetime : Type 0
Datetime = ℕ

abbrev pub Score : Type 0
Score = ℕ

-- 1.0
abbrev pub max_score : Score
max_score = 1_000_000

-- An exit code is negative where a signal ended the process.
pub data ℤ : Type 0 where
  pos negsuc : ℕ → ℤ

pub data FailureCategory : Type 0 where
  lint dependency test build unknown : FailureCategory

unfoldable pub category_value : FailureCategory → String
category_value FailureCategory.lint = "lint"
category_value FailureCategory.dependency = "dependency"
category_value FailureCategory.test = "test"
category_value FailureCategory.build = "build"
category_value FailureCategory.unknown = "unknown"

pub data WorkflowRunConclusion : Type 0 where
  success failure cancelled timed_out action_required neutral skipped unknown :
      WorkflowRunConclusion

unfoldable pub conclusion_value : WorkflowRunConclusion → String
conclusion_value WorkflowRunConclusion.success = "success"
conclusion_value WorkflowRunConclusion.failure = "failure"
conclusion_value WorkflowRunConclusion.cancelled = "cancelled"
conclusion_value WorkflowRunConclusion.timed_out = "timed_out"
conclusion_value WorkflowRunConclusion.action_required = "action_required"
conclusion_value WorkflowRunConclusion.neutral = "neutral"
conclusion_value WorkflowRunConclusion.skipped = "skipped"
conclusion_value WorkflowRunConclusion.unknown = "unknown"

pub data ValidationCommand : Type 0 where
  pytest ruff mypy python_syntax : ValidationCommand

unfoldable pub command_value : ValidationCommand → String
command_value ValidationCommand.pytest = "pytest"
command_value ValidationCommand.ruff = "ruff"
command_value ValidationCommand.mypy = "mypy"
command_value ValidationCommand.python_syntax = "python_syntax"

pub data ValidationStatus : Type 0 where
  passed failed timed_out patch_rejected unsupported infrastructure_error : ValidationStatus

unfoldable pub validation_value : ValidationStatus → String
validation_value ValidationStatus.passed = "passed"
validation_value ValidationStatus.failed = "failed"
validation_value ValidationStatus.timed_out = "timed_out"
validation_value ValidationStatus.patch_rejected = "patch_rejected"
validation_value ValidationStatus.unsupported = "unsupported"
validation_value ValidationStatus.infrastructure_error = "infrastructure_error"

-- `status == ValidationStatus.PASSED`
abbrev pub is_passed : ValidationStatus → Bool
is_passed ValidationStatus.passed = true
is_passed _ = false

pub data ApprovalStatus : Type 0 where
  pending approved rejected expired cancelled : ApprovalStatus

unfoldable pub approval_value : ApprovalStatus → String
approval_value ApprovalStatus.pending = "pending"
approval_value ApprovalStatus.approved = "approved"
approval_value ApprovalStatus.rejected = "rejected"
approval_value ApprovalStatus.expired = "expired"
approval_value ApprovalStatus.cancelled = "cancelled"

abbrev pub approval_beq : ApprovalStatus → ApprovalStatus → Bool
approval_beq ApprovalStatus.pending ApprovalStatus.pending = true
approval_beq ApprovalStatus.approved ApprovalStatus.approved = true
approval_beq ApprovalStatus.rejected ApprovalStatus.rejected = true
approval_beq ApprovalStatus.expired ApprovalStatus.expired = true
approval_beq ApprovalStatus.cancelled ApprovalStatus.cancelled = true
approval_beq _ _ = false

pub approval_beq_iff : (a b : ApprovalStatus) → (approval_beq a b ≡ true) ↔ (a ≡ b)
approval_beq_iff a b = ground arith

instance abbrev pub approval_eq : Eq ApprovalStatus
approval_eq = record { same = approval_beq; same_iff = approval_beq_iff }

pub data MutationStatus : Type 0 where
  pending applying validated committed pushed pr_created failed : MutationStatus

abbrev pub is_pr_created : MutationStatus → Bool
is_pr_created MutationStatus.pr_created = true
is_pr_created _ = false

pub data PipelineStatus : Type 0 where
  received diagnosing proposing validating awaiting_approval approved rejected mutating completed
        failed :
      PipelineStatus

-- `Literal["success", "partial", "unavailable", "empty"]`
pub data RetrievalStatus : Type 0 where
  success partial unavailable empty : RetrievalStatus

unfoldable pub retrieval_value : RetrievalStatus → String
retrieval_value RetrievalStatus.success = "success"
retrieval_value RetrievalStatus.partial = "partial"
retrieval_value RetrievalStatus.unavailable = "unavailable"
retrieval_value RetrievalStatus.empty = "empty"

-- `Literal["sufficient", "partial", "insufficient"]`
pub data EvidenceSufficiency : Type 0 where
  sufficient partial insufficient : EvidenceSufficiency

-- `Literal["low", "medium", "high"]`
pub data RiskLevel : Type 0 where
  low medium high : RiskLevel

-- `Literal["proposed", "rejected", "ineligible"]`
pub data ProposalStatus : Type 0 where
  proposed rejected ineligible : ProposalStatus

abbrev pub is_proposed : ProposalStatus → Bool
is_proposed ProposalStatus.proposed = true
is_proposed _ = false

-- `exit_code == 0`
abbrev pub is_zero_exit : Option ℤ → Bool
is_zero_exit (some (ℤ.pos zero)) = true
is_zero_exit _ = false
