-- ===== src/Mutation.antt =====
-- class GitMutationService of src/packages/shared/mutation_service.py. Git and the ephemeral
-- workspace, the checkout, the sandbox and the GitHub client answer as their parameters say; the
-- removal of the workspace in `finally` leaves nothing that the database or the outside could see.
pub mod Text
pub mod Preflight
pub mod Delivery
pub mod Outcome
use akesis.Common.{
  ℕ, zero, suc, ◌+◌, ◌-◌, ◌*◌, ◌/◌, ◌%◌, ◌≤◌, ◌<◌, min, max, String, ◌≡◌, refl, sym, ap, ◌∙◌, ◌≢◌,
  ◌↔◌, ◌⊎◌, inl, inr, Bool, true, false, not, ◌&&◌, ◌||◌, Option, none, some, List, [], ◌∷◌, ◌++◌,
  map, arith, eq_iff, eq_refl, Eq, ◌==◌, nat_eq, string_eq, if◌then◌else◌, ltb, leb, Bool-cases,
  Option-cases, and-false, codes, keep, lower, starts, has_part, last_is, same_codes, is_some,
  or_else, length, is_empty, any, all, select, update, length-append, All, contains, dedupe, concat,
  join, prefix, is_blank, decimal,
}
use mathlib.Core.Option
use akesis.Domain.{
  Datetime, ApprovalRecord, ApprovalStatus, approval_eq, approval_value, FailureContext,
  FixProposal, MutationRecord, MutationStatus, ValidationResult, ValidationStatus, is_passed,
  is_proposed, is_zero_exit, is_pr_created, validation_value, category_value, ℤ,
}
use akesis.Config.{Python}
use akesis.Runtime.{
  World, M, Result, ErrorKind, Error, Effect, ◌>>=◌, ◌>>◌, pure, raise, raise_if, fail, catch,
  choose, now, uuid_hex, emit, external,
}
use akesis.Database.Mutations.{
  Changes, no_changes, create_mutation, get_by_proposal_and_commit, update_status,
}
use akesis.Branch.{generate_branch_name, validate_branch_name}
use akesis.Workspace.{PullRequest, GitHubClient, Git}
use akesis.Mutation.Text.{commit_message, pr_title, build_pr_body}
use akesis.Validation.{SandboxRunner, RepoCheckout, validate_fix, exit_text}

unfoldable pub verify_preflight_invariants :
    FailureContext → FixProposal → ValidationResult → ApprovalRecord → M (Unit {0})
unfolding exit_text
verify_preflight_invariants context proposal validation approval = do
  raise_if (not proposal.is_valid || not (is_proposed proposal.status)) ErrorKind.preflight
      "FixProposal is not valid or not in 'proposed' state."
  raise_if (not (is_passed validation.status) || not (is_zero_exit validation.exit_code))
      ErrorKind.preflight
      (concat (
        "ValidationResult status must be 'passed' with exit code 0 (got "
        ∷ validation_value validation.status
        ∷ ", "
        ∷ exit_text validation.exit_code
        ∷ ")."
        ∷ []))
  raise_if (not (approval.status == ApprovalStatus.approved)) ErrorKind.preflight (
      concat (
        "ApprovalRecord status must be 'approved' (got "
        ∷ approval_value approval.status
        ∷ ")."
        ∷ []))
  raise_if (not (approval.proposal_id == proposal.proposal_id)) ErrorKind.preflight (
      concat (
        "Approval proposal_id '" ∷ approval.proposal_id ∷ "' does not match proposal '"
        ∷ proposal.proposal_id ∷ "'." ∷ []))
  raise_if (not (approval.commit_sha == proposal.commit_sha)) ErrorKind.preflight (
      concat (
        "Approval commit_sha '" ∷ approval.commit_sha ∷ "' does not match proposal '"
        ∷ proposal.commit_sha ∷ "'." ∷ []))
  raise_if (not (context.commit_sha == proposal.commit_sha)) ErrorKind.preflight (
      concat (
        "FailureContext commit_sha '" ∷ context.commit_sha ∷ "' does not match proposal '"
        ∷ proposal.commit_sha ∷ "'." ∷ []))

-- `update_status(FAILED, failure_reason=err_msg)`, then `raise`, if the test says so
fail_if : Bool → String → Option ValidationStatus → ErrorKind → String → M (Unit {0})
fail_if test mutation_id validation_status kind message =
    choose test
      (do
        update_status mutation_id MutationStatus.failed (record no_changes {
          validation_status = validation_status;
          failure_reason = some message;
        })
        raise kind message)
      (pure tt)

abbrev is_nonzero : ℤ → Bool
is_nonzero (ℤ.pos zero) = false
is_nonzero _ = true

abbrev is_subset : List String → List String → Bool
is_subset xs ys = all (λ x. contains x ys) xs

module _ (github : GitHubClient) (git : Git) (checkout : RepoCheckout) (sandbox : SandboxRunner)
    (python : Python) (context : FailureContext) (proposal : FixProposal)
    (validation : ValidationResult) (approval : ApprovalRecord) where
  abbrev pub branch_of : String
  branch_of = generate_branch_name context.incident_id proposal.proposal_id

  abbrev pub new_mutation : String → Datetime → MutationRecord
  new_mutation mutation_id t = record {
    mutation_id = mutation_id;
    proposal_id = proposal.proposal_id;
    approval_id = approval.approval_id;
    incident_id = context.incident_id;
    repository_owner = context.repository_owner;
    repository_name = context.repository_name;
    base_commit_sha = proposal.commit_sha;
    branch_name = branch_of;
    resulting_commit_sha = none;
    validation_status = none;
    pr_number = none;
    pr_url = none;
    status = MutationStatus.pending;
    failure_reason = none;
    created_at = t;
    updated_at = t;
  }

  -- step 3: the workspace at the approved commit; the directory of the checkout comes back
  open_workspace : String → M String
  unfolding fail_if
  open_workspace mutation_id = do
    source_dir ← external (
        checkout.checkout_commit context.repository_owner context.repository_name
          proposal.commit_sha)
    external (git.open_workspace source_dir)
    head_sha ← external git.head_sha
    fail_if (not (head_sha == proposal.commit_sha)) mutation_id none ErrorKind.stale_commit (
        concat (
          "Stale commit detected: Checked out HEAD (" ∷ head_sha
          ∷ ") does not match approved proposal commit (" ∷ proposal.commit_sha ∷ ")." ∷ []))
    pure source_dir

  -- step 4
  switch_branch : M (Unit {0})
  switch_branch = do
    heads ← external git.heads
    choose (contains branch_of heads) (external (git.switch branch_of))
        (external (git.switch_new branch_of))

  -- step 5
  apply_patch : String → M (Unit {0})
  unfolding fail_if
  apply_patch mutation_id = do
    update_status mutation_id MutationStatus.applying no_changes
    external (git.write_patch proposal.unified_diff)
    checked ← external git.apply_check
    fail_if (is_nonzero checked.0) mutation_id none ErrorKind.mutation
        (concat ("Patch check failed: " ∷ checked.1 ∷ []))
    applied ← external git.apply
    fail_if (is_nonzero applied.0) mutation_id none ErrorKind.mutation
        (concat ("Patch apply failed: " ∷ applied.1 ∷ []))
    external git.remove_patch

  -- step 6
  verify_tree : String → M (Unit {0})
  unfolding fail_if
  verify_tree mutation_id = do
    diff_files ← external git.changed_files
    untracked ← external git.untracked_files
    fail_if (not (is_empty untracked)) mutation_id none ErrorKind.working_tree (
        concat
          ("Unexpected untracked files in working tree: " ∷ python.format_files untracked ∷ []))
    fail_if (not (is_subset diff_files proposal.target_files)) mutation_id none
        ErrorKind.working_tree
        (concat (
          "Working tree changes "
          ∷ python.format_files diff_files
          ∷ " exceed target scope "
          ∷ python.format_files proposal.target_files
          ∷ []))

  -- step 7
  validate_before_push : String → String → M (Unit {0})
  unfolding fail_if exit_text
  validate_before_push mutation_id source_dir = do
    post_val ← validate_fix sandbox checkout proposal context (some source_dir)
    fail_if (not (is_passed post_val.status) || not (is_zero_exit post_val.exit_code)) mutation_id
        (some post_val.status) ErrorKind.pre_push
        (concat (
          "Pre-push validation failed (status: "
          ∷ validation_value post_val.status
          ∷ ", exit code: "
          ∷ exit_text post_val.exit_code
          ∷ ")"
          ∷ []))
    update_status mutation_id MutationStatus.validated
        (record no_changes { validation_status = some ValidationStatus.passed })
    pure tt

  -- step 8; the new commit's SHA comes back
  commit : String → M String
  commit mutation_id = do
    external git.add_all
    resulting_sha ← external (git.commit (commit_message python context proposal approval))
    update_status mutation_id MutationStatus.committed
        (record no_changes { resulting_commit_sha = some resulting_sha })
    pure resulting_sha

  -- `_push_branch_safely`
  push_branch_safely : M (Unit {0})
  push_branch_safely =
      catch
        (do
          remotes ← external git.remotes
          choose (contains "origin" remotes)
              (do
                emit (
                    Effect.branch_pushed context.repository_owner context.repository_name branch_of)
                external (git.push branch_of))
              (pure tt))
        (λ e.
          raise ErrorKind.git_push
            (concat ("Failed to push branch '" ∷ branch_of ∷ "': " ∷ e.message ∷ [])))

  -- step 9
  push : String → M (Unit {0})
  unfolding push_branch_safely
  push mutation_id = do
    push_branch_safely
    update_status mutation_id MutationStatus.pushed no_changes
    pure tt

  -- `updated_record is None` raises
  finalized : String → Option MutationRecord → M MutationRecord
  finalized mutation_id none =
      raise ErrorKind.mutation
        (concat ("Failed to finalize mutation record '" ∷ mutation_id ∷ "'" ∷ []))
  finalized mutation_id (some r) = pure r

  -- steps 10 and 11
  open_pull_request : String → String → M MutationRecord
  unfolding finalized
  open_pull_request mutation_id resulting_sha = do
    emit
        (Effect.pr_opened context.repository_owner context.repository_name branch_of context.branch)
    pr_data ← external (
        github.create_pull_request context.repository_owner context.repository_name
          (pr_title context)
          (build_pr_body python context proposal validation approval resulting_sha) branch_of
          context.branch)
    let pr_number = or_else pr_data.number 1
    let pr_url = or_else pr_data.html_url (
        concat (
          "https://github.com/"
          ∷ context.repository_owner
          ∷ "/"
          ∷ context.repository_name
          ∷ "/pull/"
          ∷ decimal pr_number
          ∷ []))
    updated ←
        update_status mutation_id MutationStatus.pr_created
          (record no_changes { pr_number = some pr_number; pr_url = some pr_url })
    finalized mutation_id updated

  -- the `try` block
  deliver : String → M MutationRecord
  unfolding open_workspace switch_branch apply_patch verify_tree validate_before_push commit push
      open_pull_request
  deliver mutation_id = do
    source_dir ← open_workspace mutation_id
    switch_branch
    apply_patch mutation_id
    verify_tree mutation_id
    validate_before_push mutation_id source_dir
    resulting_sha ← commit mutation_id
    push mutation_id
    open_pull_request mutation_id resulting_sha

  -- `existing_pr` is on GitHub: its record is created as delivered
  adopt : String → Datetime → PullRequest → M MutationRecord
  adopt mutation_id t pr = do
    let r : MutationRecord = record (new_mutation mutation_id t) {
      resulting_commit_sha = pr.head_sha;
      validation_status = some ValidationStatus.passed;
      pr_number = some (or_else pr.number 0);
      pr_url = some (or_else pr.html_url "");
      status = MutationStatus.pr_created;
    }
    create_mutation r
    pure r

  start : String → Datetime → Option PullRequest → M MutationRecord
  unfolding adopt deliver
  start mutation_id t (some pr) = adopt mutation_id t pr
  start mutation_id t none = do create_mutation (new_mutation mutation_id t); deliver mutation_id

  -- step 2: a delivered mutation is returned as it is
  resume_or_start : String → Datetime → Option MutationRecord → M MutationRecord
  unfolding start
  resume_or_start mutation_id t none = do
    existing_pr ← external (
        github.find_pull_request context.repository_owner context.repository_name branch_of
          context.branch)
    start mutation_id t existing_pr
  resume_or_start mutation_id t (some m) = choose (is_pr_created m.status) (pure m) (do
    existing_pr ← external (
        github.find_pull_request context.repository_owner context.repository_name branch_of
          context.branch)
    start mutation_id t existing_pr)

  unfoldable pub create_pull_request : M MutationRecord
  unfolding verify_preflight_invariants validate_branch_name resume_or_start
  create_pull_request = do
    verify_preflight_invariants context proposal validation approval
    validate_branch_name branch_of
    hex ← uuid_hex
    let mutation_id = concat ("mut_" ∷ prefix 12 hex ∷ [])
    t ← now
    existing ← get_by_proposal_and_commit proposal.proposal_id proposal.commit_sha
    resume_or_start mutation_id t existing
