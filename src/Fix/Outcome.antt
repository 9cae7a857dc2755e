-- ===== src/Fix/Outcome.antt =====
-- What `generate_fix_proposal` of src/packages/shared/fix_service.py returns.
use akesis.Common.{
  ◌≡◌, refl, ◌≢◌, inl, inr, Bool, true, false, Option, none, some, arith, nat_eq, string_eq,
  Bool-cases,
}
use akesis.Domain.{
  FailureContext, EvidencePackage, DiagnosticResult, RawFixProposal, FixProposal, ProposalStatus,
}
use akesis.Config.{Settings, Python}
use akesis.Runtime.{World}
use akesis.Fix.{
  PatchValidator, FixModel, is_actionable, lacks_code, checked_proposal, answer,
  generate_fix_proposal, propose_with, reject, Result, ok, err,
}
use akesis.Runtime.Post.{Post}

module _ (settings : Settings) (python : Python) (context : FailureContext)
    (diagnosis : DiagnosticResult) (validator : PatchValidator) (model : FixModel) where
  -- The proposal is for this incident and commit. It is not valid, not in state `proposed` and has no
  -- diff; or it is valid, in state `proposed`, and carries the model's diff, which the validator
  -- accepted, for a diagnosis that may be acted on and evidence that has code.
  pub data IsVetted (evidence : Option EvidencePackage) : FixProposal → Type 0 where
    withheld :
        (p : FixProposal)
        → p.is_valid ≡ false
        → p.status ≢ ProposalStatus.proposed
        → p.unified_diff ≡ ""
        → p.commit_sha ≡ context.commit_sha
        → IsVetted evidence p
    vetted :
        (p : FixProposal) (e : EvidencePackage) (raw : RawFixProposal)
        → p.is_valid ≡ true
        → p.status ≡ ProposalStatus.proposed
        → p.unified_diff ≡ raw.unified_diff
        → p.commit_sha ≡ context.commit_sha
        → is_actionable settings diagnosis ≡ true
        → evidence ≡ some e
        → lacks_code e ≡ false
        → (validator.validate_patch raw.unified_diff raw.target_files e diagnosis).is_valid ≡ true
        → IsVetted evidence p

  Vets : Option EvidencePackage → FixProposal → World → Type 0
  Vets evidence p _ = IsVetted evidence p

  checked :
      (b : Bool) (raw : RawFixProposal) (e : EvidencePackage) (w : World)
      → is_actionable settings diagnosis ≡ true
      → lacks_code e ≡ false
      → (validator.validate_patch raw.unified_diff raw.target_files e diagnosis).is_valid ≡ b
      → IsVetted (some e) (
          checked_proposal settings python context diagnosis raw
            (validator.validate_patch raw.unified_diff raw.target_files e diagnosis)
            (w.times w.reads))
  checked true raw e w a l v = IsVetted.vetted _ e raw v (rw v refl) (rw v refl) refl a refl l v
  checked false raw e w a l v = IsVetted.withheld _ v (rw v (λ x. ground arith)) (rw v refl) refl

  answer-Vets :
      (e : EvidencePackage) (raw : Result RawFixProposal) (w : World)
      → is_actionable settings diagnosis ≡ true
      → lacks_code e ≡ false
      → Post
          (Vets (some e))
          (λ _ _. ⊥)
          (answer settings python context diagnosis validator model e raw w)
  unfolding answer Vets
  answer-Vets e (ok raw) w a l = checked _ raw e w a l refl
  answer-Vets e (err x) w a l = IsVetted.withheld _ refl (λ x. ground arith) refl refl

  reject-Vets :
      (o p : Option EvidencePackage) (w : World)
      → Post (Vets p) (λ _ _. ⊥) (reject settings python context diagnosis validator model o w)
  unfolding reject Vets
  reject-Vets o p w = IsVetted.withheld _ refl (λ x. ground arith) refl refl

  propose-Vets :
      (o : Option EvidencePackage) (w : World)
      → is_actionable settings diagnosis ≡ true
      → Post
          (Vets o)
          (λ _ _. ⊥)
          (propose_with settings python context diagnosis validator model o w)
  unfolding propose_with
  propose-Vets none w a = reject-Vets none none w
  propose-Vets (some e) w a = elim (Bool-cases (lacks_code e)) [
    | inl lacks ↦ rw lacks (reject-Vets (some e) (some e) w)
    | inr has ↦ rw has (answer-Vets e _ _ a has)
  ]

  -- The service always returns, whatever the model answers or raises: a proposal for the failure's
  -- commit that is either not valid, not in state `proposed` and without a diff, or that carries the
  -- model's diff, which the validator accepted, where the diagnosis is fixable and reaches the
  -- threshold, and the evidence has code.
  pub generate_fix_proposal-IsVetted :
      (evidence : Option EvidencePackage) (w : World)
      → Post
          (λ p _. IsVetted evidence p)
          (λ _ _. ⊥)
          (generate_fix_proposal settings python context diagnosis validator model evidence w)
  unfolding generate_fix_proposal Vets
  generate_fix_proposal-IsVetted evidence w = elim (Bool-cases (is_actionable settings diagnosis)) [
    | inl yes_act ↦ rw yes_act (propose-Vets evidence w yes_act)
    | inr no_act ↦ rw no_act (IsVetted.withheld _ refl (λ x. ground arith) refl refl)
  ]
