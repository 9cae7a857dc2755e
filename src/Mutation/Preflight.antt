-- ===== src/Mutation/Preflight.antt =====
-- The first gate of GitMutationService.create_pull_request of
-- src/packages/shared/mutation_service.py: `verify_preflight_invariants`.
use akesis.Common.{zero, ◌≡◌, ◌↔◌, true, some, arith, eq_iff, nat_eq, string_eq}
use akesis.Domain.{
  ApprovalRecord, ApprovalStatus, FailureContext, FixProposal, ProposalStatus, ValidationResult,
  ValidationStatus, ℤ,
}
use akesis.Runtime.{World, ok}
use akesis.Mutation.{verify_preflight_invariants}

-- A human approved this very proposal, for this very commit, and its validation passed.
pub record IsCleared (context : FailureContext) (proposal : FixProposal)
    (validation : ValidationResult) (approval : ApprovalRecord) : Type 0 where
  pub valid : proposal.is_valid ≡ true
  pub proposed : proposal.status ≡ ProposalStatus.proposed
  pub passed : validation.status ≡ ValidationStatus.passed
  pub exit_zero : validation.exit_code ≡ some (ℤ.pos zero)
  pub approved : approval.status ≡ ApprovalStatus.approved
  pub same_proposal : approval.proposal_id ≡ proposal.proposal_id
  pub same_commit : approval.commit_sha ≡ proposal.commit_sha
  pub same_base : context.commit_sha ≡ proposal.commit_sha

module _ (context : FailureContext) (proposal : FixProposal) (validation : ValidationResult)
    (approval : ApprovalRecord) where
  -- The gate changes nothing; it lets pass exactly what is cleared.
  pub verify_preflight_invariants-IsCleared :
      (w : World)
      → let (result, after) = verify_preflight_invariants context proposal validation approval w in
        ((result ≡ ok tt) ↔ IsCleared context proposal validation approval) × (after ≡ w)
  unfolding verify_preflight_invariants
  verify_preflight_invariants-IsCleared w = (
    (
      (λ h. record {
        valid = ground arith;
        proposed = ground arith;
        passed = ground arith;
        exit_zero = ground arith;
        approved = ground arith;
        same_proposal = ground (
          arith,
          eq_iff approval.proposal_id proposal.proposal_id,
          eq_iff approval.commit_sha proposal.commit_sha,
          eq_iff context.commit_sha proposal.commit_sha,
        );
        same_commit = ground (
          arith,
          eq_iff approval.proposal_id proposal.proposal_id,
          eq_iff approval.commit_sha proposal.commit_sha,
          eq_iff context.commit_sha proposal.commit_sha,
        );
        same_base = ground (
          arith,
          eq_iff approval.proposal_id proposal.proposal_id,
          eq_iff approval.commit_sha proposal.commit_sha,
          eq_iff context.commit_sha proposal.commit_sha,
        );
      }),
      (λ h. ground (
        arith,
        eq_iff approval.proposal_id proposal.proposal_id,
        eq_iff approval.commit_sha proposal.commit_sha,
        eq_iff context.commit_sha proposal.commit_sha,
      )),
    ),
    ground arith,
  )
