-- ===== src/Resume.antt =====
-- `resume_approval` of class RemediationOrchestrator of
-- src/packages/shared/remediation_orchestrator.py.
pub mod Gate
use akesis.Common.{
  ℕ, zero, suc, ◌+◌, ◌-◌, ◌*◌, ◌/◌, ◌%◌, ◌≤◌, ◌<◌, min, max, String, ◌≡◌, refl, sym, ap, ◌∙◌, ◌≢◌,
  ◌↔◌, ◌⊎◌, inl, inr, Bool, true, false, not, ◌&&◌, ◌||◌, Option, none, some, List, [], ◌∷◌, ◌++◌,
  map, arith, eq_iff, eq_refl, Eq, ◌==◌, nat_eq, string_eq, if◌then◌else◌, ltb, leb, Bool-cases,
  Option-cases, and-false, codes, keep, lower, starts, has_part, last_is, same_codes, is_some,
  or_else, length, is_empty, any, all, select, update, length-append, All, contains, dedupe, concat,
  join, prefix, is_blank, text_or, decimal,
}
use akesis.Domain.{
  FailureContext, FixProposal, ValidationResult, ApprovalRecord, ApprovalStatus, approval_eq,
  approval_value, MutationRecord, PipelineRecord, PipelineStatus, is_proposed, is_passed,
  is_zero_exit,
}
use akesis.Runtime.{
  World, M, Result, ErrorKind, Error, ◌>>=◌, ◌>>◌, pure, raise, raise_if, catch, lift, choose,
}
use akesis.Database.Approvals.{get_approval}
use akesis.Database.Pipelines.{
  Changes, no_changes, update_pipeline_state, get_by_incident_id, get_by_approval_id,
}
use akesis.Services.{Services, Json}
use akesis.Orchestrator.{is_missing, is_finished}

-- the three stored texts, read back
pub record Restored : Type 0 where
  pub context : FailureContext
  pub proposal : FixProposal
  pub validation : ValidationResult

-- step 4, which is repeated by the mutation service
unfoldable pub verify_restored : ApprovalRecord → Restored → M (Unit {0})
verify_restored approval r = do
  raise_if (not (approval.proposal_id == r.proposal.proposal_id)) ErrorKind.orchestration (
      concat (
        "Approval proposal_id '" ∷ approval.proposal_id ∷ "' does not match persisted proposal_id '"
        ∷ r.proposal.proposal_id ∷ "'" ∷ []))
  raise_if (not (approval.commit_sha == r.proposal.commit_sha)) ErrorKind.orchestration (
      concat (
        "Approval commit_sha '" ∷ approval.commit_sha
        ∷ "' does not match persisted proposal commit_sha '" ∷ r.proposal.commit_sha ∷ "'" ∷ []))
  raise_if (not (r.context.commit_sha == r.proposal.commit_sha)) ErrorKind.orchestration (
      concat (
        "Context commit_sha '" ∷ r.context.commit_sha
        ∷ "' does not match persisted proposal commit_sha '" ∷ r.proposal.commit_sha ∷ "'" ∷ []))
  raise_if (not r.proposal.is_valid || not (is_proposed r.proposal.status)) ErrorKind.orchestration
      (concat ("Cannot mutate invalid proposal '" ∷ r.proposal.proposal_id ∷ "'" ∷ []))
  raise_if (not (is_passed r.validation.status) || not (is_zero_exit r.validation.exit_code))
      ErrorKind.orchestration
      (concat ("Cannot mutate unvalidated proposal '" ∷ r.proposal.proposal_id ∷ "'" ∷ []))
  raise_if (not (r.validation.proposal_id == r.proposal.proposal_id)) ErrorKind.orchestration
      "Validation result does not match proposal ID"

module _ (services : Services) (json : Json) where
  -- step 3
  unfoldable restore : PipelineRecord → M Restored
  restore pipeline = do
    raise_if (is_missing pipeline.failure_context_json) ErrorKind.orchestration
        "Durable failure context missing from pipeline record."
    raise_if (is_missing pipeline.proposal_json) ErrorKind.orchestration
        "Durable fix proposal missing from pipeline record."
    raise_if (is_missing pipeline.validation_json) ErrorKind.orchestration
        "Durable validation result missing from pipeline record."
    catch
        (do
          context ← lift (json.load_context (or_else pipeline.failure_context_json ""))
          proposal ← lift (json.load_proposal (or_else pipeline.proposal_json ""))
          validation ← lift (json.load_validation (or_else pipeline.validation_json ""))
          pure (record { context = context; proposal = proposal; validation = validation }))
        (λ e.
          raise ErrorKind.orchestration
            (concat ("Failed to deserialize durable pipeline objects: " ∷ e.message ∷ [])))

  -- step 6
  unfoldable deliver : ApprovalRecord → PipelineRecord → Restored → M PipelineRecord
  deliver approval pipeline r =
      catch
        (do
          mutation ← services.create_pull_request r.context r.proposal r.validation approval
          updated ←
              update_pipeline_state pipeline.pipeline_id PipelineStatus.completed
                (record no_changes {
                  mutation_id = some mutation.mutation_id;
                  pr_number = mutation.pr_number;
                  pr_url = mutation.pr_url;
                })
          pure (or_else updated pipeline))
        (λ e. do
          updated ←
              update_pipeline_state pipeline.pipeline_id PipelineStatus.failed (record no_changes {
                failure_reason = some (concat ("Mutation failed: " ∷ e.message ∷ []));
              })
          pure (or_else updated pipeline))

  -- steps 3 to 6, of an approved approval
  unfoldable pub execute : ApprovalRecord → PipelineRecord → M PipelineRecord
  unfolding restore verify_restored deliver
  execute approval pipeline = do
    r ← restore pipeline
    verify_restored approval r
    update_pipeline_state pipeline.pipeline_id PipelineStatus.mutating no_changes
    deliver approval pipeline r

  unfoldable refuse : ApprovalRecord → PipelineRecord → M PipelineRecord
  refuse approval pipeline = do
    updated ←
        update_pipeline_state pipeline.pipeline_id PipelineStatus.rejected (record no_changes {
          failure_reason =
              some
                (concat ("Rejected by reviewer: " ∷ text_or approval.decided_by "reviewer" ∷ []));
        })
    pure (or_else updated pipeline)

  -- step 2
  unfoldable pub follow : ApprovalRecord → PipelineRecord → M PipelineRecord
  unfolding refuse execute approval_value
  follow approval pipeline = choose (is_finished pipeline.status) (pure pipeline) (
      choose (approval.status == ApprovalStatus.rejected) (refuse approval pipeline) (do
        raise_if (not (approval.status == ApprovalStatus.approved)) ErrorKind.orchestration (
            concat (
              "Approval record status must be 'approved' (got "
              ∷ approval_value approval.status
              ∷ ")."
              ∷ []))
        execute approval pipeline))

  -- the pipeline of the approval, or else of its incident
  unfoldable pub find_pipeline : ApprovalRecord → Option PipelineRecord → M (Option PipelineRecord)
  find_pipeline approval (some pipeline) = pure (some pipeline)
  find_pipeline approval none = get_by_incident_id approval.incident_id

  unfoldable with_pipeline : String → ApprovalRecord → Option PipelineRecord → M PipelineRecord
  unfolding follow
  with_pipeline approval_id approval (some pipeline) = follow approval pipeline
  with_pipeline approval_id approval none =
      raise ErrorKind.orchestration
        (concat ("Pipeline record for approval '" ∷ approval_id ∷ "' not found." ∷ []))

  -- step 1
  unfoldable pub with_approval : String → Option ApprovalRecord → M PipelineRecord
  unfolding find_pipeline with_pipeline
  with_approval approval_id (some approval) = do
    by_approval ← get_by_approval_id approval_id
    pipeline ← find_pipeline approval by_approval
    with_pipeline approval_id approval pipeline
  with_approval approval_id none =
      raise ErrorKind.orchestration
        (concat ("Approval record '" ∷ approval_id ∷ "' not found." ∷ []))

  unfoldable pub resume_approval : String → M PipelineRecord
  unfolding with_approval
  resume_approval approval_id = do
    approval ← get_approval approval_id
    with_approval approval_id approval
