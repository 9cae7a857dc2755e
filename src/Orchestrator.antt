-- ===== src/Orchestrator.antt =====
-- class RemediationOrchestrator of src/packages/shared/remediation_orchestrator.py.
pub mod Settles
pub mod Gate
use akesis.Common.{
  ℕ, zero, suc, ◌+◌, ◌-◌, ◌*◌, ◌/◌, ◌%◌, ◌≤◌, ◌<◌, min, max, String, ◌≡◌, refl, sym, ap, ◌∙◌, ◌≢◌,
  ◌↔◌, ◌⊎◌, inl, inr, Bool, true, false, not, ◌&&◌, ◌||◌, Option, none, some, List, [], ◌∷◌, ◌++◌,
  map, arith, eq_iff, eq_refl, Eq, ◌==◌, nat_eq, string_eq, if◌then◌else◌, ltb, leb, Bool-cases,
  Option-cases, and-false, codes, keep, lower, starts, has_part, last_is, same_codes, is_some,
  or_else, length, is_empty, any, all, select, update, length-append, All, contains, dedupe, concat,
  join, prefix, is_blank, text_or, decimal, within, is_space, is_break, is_digit, onto, lines_from,
  split_lines, strip_left, strip_right, strip, drop, starts_with, ends, after_first, until,
  replace_char, read_digits, skip_space,
}
use akesis.Domain.{
  Datetime, FailureContext, DiagnosticResult, EvidencePackage, FixProposal, ValidationResult,
  approval_eq, PipelineRecord, PipelineStatus, RetrievalStatus, retrieval_value, is_proposed,
  is_passed, is_zero_exit, validation_value,
}
use akesis.Config.{Python}
use akesis.Runtime.{M, ◌>>=◌, ◌>>◌, pure, catch, choose, now}
use akesis.Database.Pipelines.{
  Changes, no_changes, create_pipeline, update_pipeline_state, get_by_incident_id,
}
use akesis.Validation.{exit_text}
use akesis.Services.{Services, Json}

abbrev pub pipeline_id_of : FailureContext → String
pipeline_id_of context = concat ("pipe_" ∷ context.incident_id ∷ [])

abbrev is_unavailable : RetrievalStatus → Bool
is_unavailable RetrievalStatus.unavailable = true
is_unavailable RetrievalStatus.empty = true
is_unavailable _ = false

-- `if not text:` of a column that may be null
abbrev pub is_missing : Option String → Bool
is_missing none = true
is_missing (some s) = is_blank s

abbrev pub is_finished : PipelineStatus → Bool
is_finished PipelineStatus.completed = true
is_finished PipelineStatus.mutating = true
is_finished _ = false

module _ (services : Services) (json : Json) (python : Python) where
  -- The stages after the pipeline's row is created. Each returns `updated or record`.
  module _ (context : FailureContext) (received : PipelineRecord) where
    abbrev pipeline_id : String
    pipeline_id = pipeline_id_of context

    abbrev pub diag_id : String
    diag_id = concat ("diag_" ∷ context.incident_id ∷ [])

    -- `update_pipeline_state`, then `return updated or record`
    unfoldable pub finish : PipelineStatus → Changes → M PipelineRecord
    finish status changes = do
      updated ← update_pipeline_state pipeline_id status changes
      pure (or_else updated received)

    -- stage 6
    unfoldable pub authorize : FixProposal → ValidationResult → M PipelineRecord
    unfolding finish
    authorize proposal validation = do
      approval ← services.request_approval context proposal validation
      finish PipelineStatus.awaiting_approval (record no_changes {
        diagnosis_id = some diag_id;
        proposal_id = some proposal.proposal_id;
        approval_id = some approval.approval_id;
        failure_context_json = some (json.dump_context context);
        proposal_json = some (json.dump_proposal proposal);
        validation_json = some (json.dump_validation validation);
      })

    -- stage 5
    unfoldable pub validate : FixProposal → M PipelineRecord
    unfolding finish authorize exit_text
    validate proposal = do
      update_pipeline_state pipeline_id PipelineStatus.validating (record no_changes {
        proposal_id = some proposal.proposal_id;
        proposal_json = some (json.dump_proposal proposal);
      })
      validation ← services.validate_fix proposal context
      choose (not (is_passed validation.status) || not (is_zero_exit validation.exit_code))
          (finish PipelineStatus.failed (record no_changes {
            proposal_id = some proposal.proposal_id;
            failure_reason = some (
                concat (
                  "Sandbox validation failed: status="
                  ∷ validation_value validation.status
                  ∷ ", exit_code="
                  ∷ exit_text validation.exit_code
                  ∷ ", error="
                  ∷ strip validation.stderr
                  ∷ []));
            proposal_json = some (json.dump_proposal proposal);
            validation_json = some (json.dump_validation validation);
          }))
          (authorize proposal validation)

    -- stage 4
    unfoldable pub propose : DiagnosticResult → EvidencePackage → M PipelineRecord
    unfolding finish validate
    propose diagnosis evidence = do
      update_pipeline_state pipeline_id PipelineStatus.proposing
          (record no_changes { diagnosis_id = some diag_id })
      proposal ← services.generate_fix_proposal context evidence diagnosis
      choose (not proposal.is_valid || not (is_proposed proposal.status))
          (finish PipelineStatus.rejected (record no_changes {
            diagnosis_id = some diag_id;
            proposal_id = some proposal.proposal_id;
            failure_reason = some (
                concat (
                  "Fix proposal rejected or ineligible: "
                  ∷ text_or (some (join ", " proposal.rejection_reasons)) "Proposal invalid"
                  ∷ []));
            proposal_json = some (json.dump_proposal proposal);
          }))
          (validate proposal)

    -- stage 3
    unfoldable pub resolve : DiagnosticResult → M PipelineRecord
    unfolding finish propose retrieval_value
    resolve diagnosis = do
      evidence ← services.resolve_context context
      choose (is_unavailable evidence.retrieval_status || is_empty evidence.code_evidences)
          (finish PipelineStatus.failed (record no_changes {
            diagnosis_id = some diag_id;
            failure_reason = some (
                concat (
                  "Remediation halted: Codebase context unavailable ("
                  ∷ retrieval_value evidence.retrieval_status
                  ∷ "): "
                  ∷ text_or (some (join "; " evidence.retrieval_notes))
                      "No source code evidence available"
                  ∷ []));
          }))
          (propose diagnosis evidence)

    -- the `try` block, from stage 2
    unfoldable pub stages : M PipelineRecord
    unfolding finish resolve
    stages = do
      update_pipeline_state pipeline_id PipelineStatus.diagnosing no_changes
      diagnosis ← services.diagnose_failure context
      choose (not diagnosis.proposal.is_fixable)
          (finish PipelineStatus.failed (record no_changes {
            diagnosis_id = some diag_id;
            failure_reason = some (
                concat (
                  "Diagnosis concluded issue is not fixable: " ∷ diagnosis.proposal.root_cause
                  ∷ []));
          }))
          (resolve diagnosis)

    unfoldable pub guarded : M PipelineRecord
    unfolding finish stages
    guarded = catch stages (λ e. finish PipelineStatus.failed (record no_changes {
      failure_reason = some (concat ("Pipeline exception: " ∷ e.message ∷ []));
    }))

  abbrev pub new_pipeline : Datetime → FailureContext → PipelineRecord
  new_pipeline t context = record {
    pipeline_id = pipeline_id_of context;
    incident_id = context.incident_id;
    repository_owner = context.repository_owner;
    repository_name = context.repository_name;
    run_id = context.run_id;
    commit_sha = context.commit_sha;
    status = PipelineStatus.received;
    diagnosis_id = none;
    proposal_id = none;
    approval_id = none;
    mutation_id = none;
    pr_number = none;
    pr_url = none;
    failure_reason = none;
    failure_context_json = some (json.dump_context context);
    proposal_json = none;
    validation_json = none;
    created_at = t;
    updated_at = t;
  }

  -- stage 1: a pipeline of the incident is returned as it is
  unfoldable pub unless_exists :
      Datetime → FailureContext → Option PipelineRecord → M PipelineRecord
  unfolding guarded
  unless_exists t context (some existing) = pure existing
  unless_exists t context none = do
    create_pipeline (new_pipeline t context)
    guarded context (new_pipeline t context)

  unfoldable pub process_failure : FailureContext → M PipelineRecord
  unfolding unless_exists
  process_failure context = do
    t ← now
    existing ← get_by_incident_id context.incident_id
    unless_exists t context existing
