-- ===== src/Mutation/Text.antt =====
-- What class GitMutationService of src/packages/shared/mutation_service.py writes: the commit message,
-- the pull request's title and its body (`_build_pr_body`).
use akesis.Common.{String, [], ◌∷◌, map, nat_eq, string_eq, or_else, concat, join, text_or, decimal}
use mathlib.Core.Option
use akesis.Domain.{
  ApprovalRecord, FailureContext, FixProposal, ValidationResult, ValidationStatus, category_value,
}
use akesis.Config.{Python}
use akesis.Validation.{exit_text}

-- `validation.status.value.upper()`
upper_value : ValidationStatus → String
upper_value ValidationStatus.passed = "PASSED"
upper_value ValidationStatus.failed = "FAILED"
upper_value ValidationStatus.timed_out = "TIMED_OUT"
upper_value ValidationStatus.patch_rejected = "PATCH_REJECTED"
upper_value ValidationStatus.unsupported = "UNSUPPORTED"
upper_value ValidationStatus.infrastructure_error = "INFRASTRUCTURE_ERROR"

module _ (python : Python) (context : FailureContext) (proposal : FixProposal)
    (approval : ApprovalRecord) where
  pub commit_message : String
  commit_message = concat (
      "fix(akesis): apply approved remediation "
      ∷ proposal.proposal_id
      ∷ "\n\n"
      ∷ "Incident: "
      ∷ context.incident_id
      ∷ "\n"
      ∷ "Approval: "
      ∷ approval.approval_id
      ∷ "\n"
      ∷ "Reviewer: "
      ∷ text_or approval.decided_by "human_reviewer"
      ∷ "\n"
      ∷ "Confidence: "
      ∷ python.format_score proposal.confidence_score
      ∷ "\n"
      ∷ [])

pub pr_title : FailureContext → String
pr_title context = concat (
    "fix(ci): fix "
    ∷ context.signal.error_type
    ∷ " in "
    ∷ text_or context.signal.target_file "repo"
    ∷ [])

module _ (python : Python) (context : FailureContext) (proposal : FixProposal)
    (validation : ValidationResult) (approval : ApprovalRecord) where
  -- `_build_pr_body`
  pub build_pr_body : String → String
  unfolding exit_text upper_value
  build_pr_body resulting_sha = concat (
      "## 🤖 Akesis CI Self-Healing Remediation\n\n"
      ∷ "This pull request contains a verified code remediation generated by Akesis "
      ∷ "and **explicitly authorized by a human engineer**.\n\n"
      ∷ "### 📋 Incident & Approval Metadata\n"
      ∷ "* **Incident ID:** `"
      ∷ context.incident_id
      ∷ "`\n"
      ∷ "* **Workflow Run ID:** [#"
      ∷ decimal context.run_id
      ∷ "]("
      ∷ context.run_url
      ∷ ")\n"
      ∷ "* **Failure Category:** `"
      ∷ category_value context.signal.category
      ∷ "`\n"
      ∷ "* **Base Commit SHA:** `"
      ∷ proposal.commit_sha
      ∷ "`\n"
      ∷ "* **Resulting Commit SHA:** `"
      ∷ resulting_sha
      ∷ "`\n"
      ∷ "* **Human Reviewer:** `"
      ∷ text_or approval.decided_by "lead_engineer"
      ∷ "`\n"
      ∷ "* **Approved At:** `"
      ∷ or_else (Option.map python.format_datetime approval.decided_at) "recently"
      ∷ "`\n\n"
      ∷ "### 🛡\u{fe0f} Validation Outcome\n"
      ∷ "* **Status:** `"
      ∷ upper_value validation.status
      ∷ "` "
      ∷ "(Exit code `"
      ∷ exit_text validation.exit_code
      ∷ "`)\n"
      ∷ "* **Validation Command:** `"
      ∷ validation.command_executed
      ∷ "`\n"
      ∷ "* **Execution Time:** `"
      ∷ python.format_duration validation.duration_ms
      ∷ "ms`\n\n"
      ∷ "### 💡 Remediation Rationale\n"
      ∷ proposal.rationale
      ∷ "\n\n"
      ∷ "### 🎯 Modified Files\n"
      ∷ join "\n" (map (λ f. concat ("* `" ∷ f ∷ "`" ∷ [])) proposal.target_files)
      ∷ "\n\n---\n"
      ∷ "*Generated by [Akesis Self-Healing CI/CD Agent](https://github.com/crlabs-ai/akesis)*"
      ∷ [])
