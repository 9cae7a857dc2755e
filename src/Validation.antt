-- ===== src/Validation.antt =====
-- class ValidationService of src/packages/shared/validation_service.py.
-- `run_validation` and `checkout_commit` are the methods of SandboxRunnerProtocol and
-- RepoCheckoutProtocol. Durations are differences of clock readings, and are not rounded.
pub mod Passing
pub mod Judged
use akesis.Common.{
  ℕ, zero, suc, ◌+◌, ◌-◌, ◌*◌, ◌/◌, ◌%◌, ◌≤◌, ◌<◌, min, max, String, ◌≡◌, refl, sym, ap, ◌∙◌, ◌≢◌,
  ◌↔◌, ◌⊎◌, inl, inr, Bool, true, false, not, ◌&&◌, ◌||◌, Option, none, some, List, [], ◌∷◌, ◌++◌,
  map, arith, eq_iff, eq_refl, Eq, ◌==◌, nat_eq, string_eq, if◌then◌else◌, ltb, leb, Bool-cases,
  Option-cases, and-false, codes, keep, lower, starts, has_part, last_is, same_codes, is_some,
  or_else, length, is_empty, any, all, select, update, length-append, All, contains, dedupe, concat,
  join, prefix, is_blank, decimal,
}
use akesis.Domain.{
  Datetime, FailureCategory, FailureContext, FailureSignal, FixProposal, ValidationCommand,
  command_value, ValidationResult, ValidationStatus, is_passed, is_proposed, is_zero_exit, ℤ,
}
use akesis.Runtime.{
  World, M, Result, ok, err, Error, ErrorKind, ◌>>=◌, ◌>>◌, pure, fail, choose, now, external, lift,
  attempt,
}

-- `ValidationExecutionResult` of src/packages/sdk/sandbox_runner.py
pub record ValidationExecutionResult : Type 0 where
  pub exit_code : Option ℤ
  pub stdout : String
  pub stderr : String
  pub duration_ms : ℕ
  pub timed_out : Bool

pub record SandboxRunner : Type 0 where
  pub run_validation : String → String → ValidationCommand → ℕ → Result ValidationExecutionResult

pub record RepoCheckout : Type 0 where
  pub checkout_commit : String → String → String → ℕ → Result String

select_lint : List ℕ → ValidationCommand
select_lint err_type =
    if has_part err_type (codes "type") || has_part err_type (codes "mypy")
    then ValidationCommand.mypy
    else ValidationCommand.ruff

unfoldable pub select_validation_command : FailureContext → Option ValidationCommand
unfolding select_lint
select_validation_command context = elim context.signal.category [
  | FailureCategory.lint ↦ some (select_lint (map lower (codes context.signal.error_type)))
  | FailureCategory.test ↦ some ValidationCommand.pytest
  | _ ↦ some ValidationCommand.python_syntax
]

-- The part of a result that the branches of `validate_fix` set for themselves.
pub record Outcome : Type 0 where
  pub status : ValidationStatus
  pub command_executed : String
  pub exit_code : Option ℤ
  pub stdout : String
  pub stderr : String
  pub duration_ms : ℕ
  pub timed_out : Bool
  pub failure_reason : Option String

abbrev pub result_of : FixProposal → FailureContext → Outcome → Datetime → ValidationResult
result_of proposal context o t = record {
  validation_id = concat ("val_" ∷ proposal.proposal_id ∷ []);
  proposal_id = proposal.proposal_id;
  incident_id = context.incident_id;
  commit_sha = proposal.commit_sha;
  status = o.status;
  command_executed = o.command_executed;
  exit_code = o.exit_code;
  stdout = o.stdout;
  stderr = o.stderr;
  duration_ms = o.duration_ms;
  timed_out = o.timed_out;
  failure_reason = o.failure_reason;
  created_at = t;
}

-- A branch that ran no command to its end.
abbrev stopped : ValidationStatus → String → String → ℕ → Bool → String → Outcome
stopped status command stderr duration timed_out reason = record {
  status = status;
  command_executed = command;
  exit_code = none;
  stdout = "";
  stderr = stderr;
  duration_ms = duration;
  timed_out = timed_out;
  failure_reason = some reason;
}

abbrev pub status_of : ValidationExecutionResult → ValidationStatus
status_of r =
    if r.timed_out
    then ValidationStatus.timed_out
    else if is_zero_exit r.exit_code
    then ValidationStatus.passed
    else ValidationStatus.failed

-- `f"{exit_code}"`
unfoldable pub exit_text : Option ℤ → String
exit_text none = "None"
exit_text (some (ℤ.pos n)) = decimal n
exit_text (some (ℤ.negsuc n)) = concat ("-" ∷ decimal (suc n) ∷ [])

completed : ValidationCommand → ValidationExecutionResult → Outcome
unfolding exit_text
completed command r = record {
  status = status_of r;
  command_executed = command_value command;
  exit_code = r.exit_code;
  stdout = r.stdout;
  stderr = r.stderr;
  duration_ms = r.duration_ms;
  timed_out = r.timed_out;
  failure_reason =
      if is_passed (status_of r)
      then none
      else some (concat ("Exit code " ∷ exit_text r.exit_code ∷ []));
}

-- the `except` clauses of the sandbox run
caught : ValidationCommand → ℕ → Error → Outcome
caught command duration e = elim e.kind [
  | ErrorKind.patch_application ↦
      stopped ValidationStatus.patch_rejected (command_value command) e.message duration false
        "Patch rejected by git apply."
  | ErrorKind.sandbox_timeout ↦
      stopped ValidationStatus.timed_out (command_value command) e.message duration true
        "Validation container execution timed out."
  | ErrorKind.docker_unavailable ↦
      stopped ValidationStatus.infrastructure_error (command_value command) e.message duration false
        "Docker daemon unavailable on host."
  | _ ↦
      stopped ValidationStatus.infrastructure_error (command_value command) e.message duration false
        (concat ("Unexpected validation error: " ∷ e.message ∷ []))
]

abbrev pub is_checkout_error : Error → Bool
is_checkout_error e = elim e.kind [ ErrorKind.checkout ↦ true | _ ↦ false ]

-- `is_valid`, state `proposed` and a diff: what validation and approval ask of a proposal
abbrev pub is_ready : FixProposal → Bool
is_ready proposal =
    proposal.is_valid && is_proposed proposal.status && not (is_blank proposal.unified_diff)

module _ (sandbox : SandboxRunner) (checkout : RepoCheckout) (proposal : FixProposal)
    (context : FailureContext) where
  conclude : Outcome → M ValidationResult
  conclude o = do t ← now; pure (result_of proposal context o t)

  after_run : ValidationCommand → Datetime → Result ValidationExecutionResult → M ValidationResult
  unfolding conclude completed caught
  after_run command start (ok r) = conclude (completed command r)
  after_run command start (err e) = do t ← now; conclude (caught command (t - start) e)

  -- step 4, in a directory
  run_in : ValidationCommand → Datetime → String → M ValidationResult
  unfolding after_run
  run_in command start repo_root = do
    r ← attempt (sandbox.run_validation repo_root proposal.unified_diff command)
    after_run command start r

  -- `except RepositoryCheckoutError`
  checkout_failed : ValidationCommand → Datetime → Error → M ValidationResult
  unfolding conclude
  checkout_failed command start e = do
    t ← now
    conclude (
        stopped ValidationStatus.infrastructure_error (command_value command)
          (concat ("Repository checkout failed: " ∷ e.message ∷ [])) (t - start) false
          "Failed to checkout exact commit SHA.")

  after_checkout : ValidationCommand → Datetime → Result String → M ValidationResult
  unfolding run_in checkout_failed
  after_checkout command start (ok repo_root) = run_in command start repo_root
  after_checkout command start (err e) =
      choose (is_checkout_error e) (checkout_failed command start e) (fail e)

  with_command : Option ValidationCommand → Datetime → Option String → M ValidationResult
  unfolding run_in after_checkout conclude
  with_command none start repo_root = conclude (
      stopped ValidationStatus.unsupported "none"
        "No deterministic validation command mapped for this failure category." 0 false
        "Unsupported validation category.")
  with_command (some command) start (some repo_root) = run_in command start repo_root
  with_command (some command) start none = do
    r ← attempt (
        checkout.checkout_commit context.repository_owner context.repository_name
          proposal.commit_sha)
    after_checkout command start r

  unfoldable pub validate_fix : Option String → M ValidationResult
  unfolding with_command conclude
  validate_fix repo_root = do
    start ← now
    choose (is_ready proposal) (with_command (select_validation_command context) start repo_root) (
        conclude (
          stopped ValidationStatus.patch_rejected "none"
            "Proposal is invalid or lacks a valid unified diff patch." 0 false
            "FixProposal is not in valid proposed state."))
