-- ===== src/Approval/Eligibility.antt =====
-- Who may ask for approval: `check_eligibility` and `request_approval` of
-- src/packages/shared/approval_service.py.
use akesis.Common.{zero, ◌≤◌, ◌≡◌, ◌↔◌, true, false, none, some, arith, nat_eq, string_eq, is_blank}
use akesis.Domain.{
  FixProposal, ProposalStatus, ValidationResult, ValidationStatus, FailureContext, ℤ,
}
use akesis.Config.{Settings, Python}
use akesis.Runtime.{World}
use akesis.Approval.{check_eligibility, request_approval, SlackClient}

-- What a reviewer may be asked to look at.
pub record IsEligible (settings : Settings) (proposal : FixProposal) (validation : ValidationResult)
    : Type 0 where
  pub valid : proposal.is_valid ≡ true
  pub proposed : proposal.status ≡ ProposalStatus.proposed
  pub has_diff : is_blank proposal.unified_diff ≡ false
  pub passed : validation.status ≡ ValidationStatus.passed
  pub exit_zero : validation.exit_code ≡ some (ℤ.pos zero)
  pub confident : settings.min_fix_confidence_threshold ≤ proposal.confidence_score

module _ (settings : Settings) (python : Python) (proposal : FixProposal)
    (validation : ValidationResult) where
  -- A proposal passes the check exactly when it is valid, in state `proposed` and has a diff, its
  -- validation passed with exit code 0, and its confidence reaches the threshold; it is given a
  -- reason exactly when it does not pass.
  pub check_eligibility-IsEligible :
      let (is_eligible, reason) = check_eligibility settings python proposal validation in
      ((is_eligible ≡ true) ↔ IsEligible settings proposal validation)
      × ((reason ≡ none) ↔ (is_eligible ≡ true))
  unfolding check_eligibility
  check_eligibility-IsEligible = (
    (
      (λ h. record {
        valid = ground arith;
        proposed = ground arith;
        has_diff = ground arith;
        passed = ground arith;
        exit_zero = ground arith;
        confident = ground arith;
      }),
      (λ h. ground arith),
    ),
    ground arith,
  )

module _ (slack : SlackClient) (settings : Settings) (python : Python) where
  pub ineligible_lem :
      (context : FailureContext) (proposal : FixProposal) (validation : ValidationResult)
      (w : World)
      → (check_eligibility settings python proposal validation).0 ≡ false
      → (request_approval slack settings python context proposal validation w).1 ≡ w
  unfolding request_approval
  ineligible_lem context proposal validation w h = ground arith
