-- ===== src/Validation/Passing.antt =====
-- When `validate_fix` of src/packages/shared/validation_service.py reports a pass, and that it
-- touches nothing.
use akesis.Common.{
  zero, String, ◌≡◌, ◌≢◌, true, false, Option, none, some, arith, nat_eq, string_eq,
}
use akesis.Domain.{FailureContext, FixProposal, ValidationResult, ℤ, ValidationCommand, Datetime}
use akesis.Runtime.{World, Result, ok, err, Error}
use akesis.Runtime.Keeps.{Keeps, Timeless, keeps_rules}
use akesis.Validation.{
  SandboxRunner, RepoCheckout, ValidationExecutionResult, validate_fix, select_validation_command,
  is_ready, run_in, after_run, after_checkout, with_command, conclude, Outcome, checkout_failed,
}

-- What a result with status `passed` vouches for.
pub record Vouches (proposal : FixProposal) (r : ValidationResult) : Type 0 where
  pub ready : is_ready proposal ≡ true
  pub exit_zero : r.exit_code ≡ some (ℤ.pos zero)
  pub in_time : r.timed_out ≡ false
  pub same_proposal : r.proposal_id ≡ proposal.proposal_id
  pub same_commit : r.commit_sha ≡ proposal.commit_sha

-- A command is selected for every failure.
pub select_total : (context : FailureContext) → select_validation_command context ≢ none
unfolding select_validation_command
select_total context = ground arith

module _ (sandbox : SandboxRunner) (checkout : RepoCheckout) (proposal : FixProposal)
    (context : FailureContext) where
  module _ {P : World → Type 0} (t : Timeless P) where
    conclude-Keeps : (o : Outcome) → Keeps P (conclude sandbox checkout proposal context o)
    unfolding conclude
    conclude-Keeps o = search (keeps_rules, t)

    after_run-Keeps :
        (command : ValidationCommand) (start : Datetime) (r : Result ValidationExecutionResult)
        → Keeps P (after_run sandbox checkout proposal context command start r)
    unfolding after_run
    after_run-Keeps command start (ok r) = search (conclude-Keeps)
    after_run-Keeps command start (err e) = search (keeps_rules, t, conclude-Keeps)

    run_in-Keeps :
        (command : ValidationCommand) (start : Datetime) (repo_root : String)
        → Keeps P (run_in sandbox checkout proposal context command start repo_root)
    unfolding run_in
    run_in-Keeps command start repo_root = search (keeps_rules, t, after_run-Keeps)

    checkout_failed-Keeps :
        (command : ValidationCommand) (start : Datetime) (e : Error)
        → Keeps P (checkout_failed sandbox checkout proposal context command start e)
    unfolding checkout_failed
    checkout_failed-Keeps command start e = search (keeps_rules, t, conclude-Keeps)

    after_checkout-Keeps :
        (command : ValidationCommand) (start : Datetime) (r : Result String)
        → Keeps P (after_checkout sandbox checkout proposal context command start r)
    unfolding after_checkout
    after_checkout-Keeps command start (ok repo_root) = search (run_in-Keeps)
    after_checkout-Keeps command start (err e) = search (keeps_rules, checkout_failed-Keeps)

    with_command-Keeps :
        (command : Option ValidationCommand) (start : Datetime) (repo_root : Option String)
        → Keeps P (with_command sandbox checkout proposal context command start repo_root)
    unfolding with_command
    with_command-Keeps none start repo_root = search conclude-Keeps
    with_command-Keeps (some command) start (some repo_root) = search run_in-Keeps
    with_command-Keeps (some command) start none = search (keeps_rules, t, after_checkout-Keeps)

    -- Validation touches no table and no effect, whatever it returns.
    pub validate_fix-Keeps :
        (repo_root : Option String)
        → Keeps P (validate_fix sandbox checkout proposal context repo_root)
    unfolding validate_fix
    validate_fix-Keeps repo_root = search (keeps_rules, t, with_command-Keeps, conclude-Keeps)
