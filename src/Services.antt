-- ===== src/Services.antt =====
-- The services that class RemediationOrchestrator of src/packages/shared/remediation_orchestrator.py
-- calls, by their protocols, and what pydantic writes to and reads from the database.
use akesis.Common.{String, nat_eq, string_eq}
use akesis.Domain.{
  FailureContext, DiagnosticResult, EvidencePackage, FixProposal, ValidationResult, ApprovalRecord,
  MutationRecord,
}
use akesis.Runtime.{World, M, Result}
use akesis.Runtime.Keeps.{Keeps}

pub record Services : Type 0 where
  pub diagnose_failure : FailureContext → M DiagnosticResult
  pub resolve_context : FailureContext → M EvidencePackage
  pub generate_fix_proposal : FailureContext → EvidencePackage → DiagnosticResult → M FixProposal
  pub validate_fix : FixProposal → FailureContext → M ValidationResult
  pub request_approval : FailureContext → FixProposal → ValidationResult → M ApprovalRecord
  pub create_pull_request :
      FailureContext → FixProposal → ValidationResult → ApprovalRecord → M MutationRecord

-- `model_dump_json` and `model_validate_json`
pub record Json : Type 0 where
  pub dump_context : FailureContext → String
  pub dump_proposal : FixProposal → String
  pub dump_validation : ValidationResult → String
  pub load_context : String → Result FailureContext
  pub load_proposal : String → Result FixProposal
  pub load_validation : String → Result ValidationResult

-- Every service keeps this invariant.
pub record AllKeep (services : Services) (P : World → Type 0) : Type 0 where
  pub diagnoses : (c : FailureContext) → Keeps P (services.diagnose_failure c)
  pub resolves : (c : FailureContext) → Keeps P (services.resolve_context c)
  pub generates :
      (c : FailureContext) (e : EvidencePackage) (d : DiagnosticResult)
      → Keeps P (services.generate_fix_proposal c e d)
  pub validates : (p : FixProposal) (c : FailureContext) → Keeps P (services.validate_fix p c)
  pub requests :
      (c : FailureContext) (p : FixProposal) (v : ValidationResult)
      → Keeps P (services.request_approval c p v)
  pub creates :
      (c : FailureContext) (p : FixProposal) (v : ValidationResult) (a : ApprovalRecord)
      → Keeps P (services.create_pull_request c p v a)
