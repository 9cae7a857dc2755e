-- ===== src/Patch/Proposal.antt =====
-- The fix service of src/packages/shared/fix_service.py with the validator of
-- src/packages/shared/patch_validator.py.
use akesis.Common.{String, ◌≡◌, false, Option, some, List, nat_eq, string_eq}
use akesis.Config.{Settings, Python}
use akesis.Domain.{FailureContext, DiagnosticResult, EvidencePackage, FixProposal}
use akesis.Paths.{Checkout}
use akesis.Runtime.Post.{Post}
use akesis.Patch.Acceptance.{IsAcceptable}

module _ (settings : Settings) (python : Python) (context : FailureContext)
    (diagnosis : DiagnosticResult) (repo_root : Option Checkout) where
  -- The proposal is not valid, or its diff is acceptable for some files that the model claims.
  pub data IsGrounded (evidence : Option EvidencePackage) (p : FixProposal) : Type 0 where
    withheld : p.is_valid ≡ false → IsGrounded evidence p
    grounds :
        (e : EvidencePackage) (claimed : List String)
        → evidence ≡ some e
        → IsAcceptable settings python evidence (some diagnosis) repo_root p.unified_diff claimed
        → IsGrounded evidence p
