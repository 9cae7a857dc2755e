-- ===== src/Tests.antt =====
-- Runs on the incident of Samples, and instances of the theorems at it.
pub mod Endpoints
pub mod Patches
pub mod Clients
pub mod Sorting
use akesis.Common.{
  ℕ, zero, suc, ◌+◌, ◌-◌, ◌*◌, ◌/◌, ◌%◌, ◌≤◌, ◌<◌, min, max, String, ◌≡◌, refl, sym, ap, ◌∙◌, ◌≢◌,
  ◌↔◌, ◌⊎◌, inl, inr, Bool, true, false, not, ◌&&◌, ◌||◌, Option, none, some, List, [], ◌∷◌, ◌++◌,
  map, arith, eq_iff, eq_refl, Eq, ◌==◌, nat_eq, string_eq, if◌then◌else◌, ltb, leb, Bool-cases,
  Option-cases, and-false, codes, keep, lower, starts, has_part, last_is, same_codes, is_some,
  or_else, length, is_empty, any, all, select, update, length-append, All, contains, dedupe, concat,
  join, prefix, is_blank, text_or, decimal,
}
use akesis.Domain.{
  ValidationStatus, PipelineStatus, ValidationCommand, ValidationResult, MutationRecord,
  PipelineRecord, MutationStatus,
}
use akesis.Config.{default_settings}
use akesis.Runtime.{World, ok, ErrorKind, Raises}
use akesis.Runtime.Keeps.{Timeless}
use akesis.Database.Table.Stores.{Stores}
use akesis.Database.Approvals.Laws.{IsKeyed, rows_of}
use akesis.Database.Approvals.{get_approval}
use akesis.Database.Pipelines.{pipelines}
use akesis.Approval.{check_eligibility, decide_in_database, target_of}
use akesis.Approval.Eligibility.{IsEligible, check_eligibility-IsEligible}
use akesis.Approval.Race.{Request, winners, winners-le-one}
use akesis.Approval.Lifecycle.{verdict, left, Answers, row, decide_in_database-verdict}
use akesis.Validation.{validate_fix}
use akesis.Validation.Judged.{Judges, IsPassing, IsUnchecked, validate_fix-Judges}
use akesis.Branch.{generate_branch_name, validate_branch_name, clean}
use akesis.Branch.Safety.{generate-validate}
use akesis.Mutation.{verify_preflight_invariants, create_pull_request}
use akesis.Mutation.Preflight.{IsCleared, verify_preflight_invariants-IsCleared}
use akesis.Mutation.Outcome.{create_pull_request-Yields}
use akesis.Mutation.Delivery.{Delivers, create_pull_request-Delivers}
use akesis.Resume.{resume_approval}
use akesis.Resume.Gate.{resume_approval-Gate, resume_approval-unapproved}
use akesis.Database.Pipelines.{get_by_approval_id}
use akesis.Samples.{
  python, context, proposal, validation, pending_approval, approval, mutation, pipeline, world,
  sandbox, checkout, github, git, run, json, services,
}
use akesis.Runtime.Post.{Post}

abbrev one_pending : World
one_pending = record world { approvals = pending_approval ∷ [] }

one_pending-IsKeyed : IsKeyed one_pending
one_pending-IsKeyed id = ground arith

abbrev approve : Request
approve = record {
  approval_id = "appr_1";
  decision = "approve";
  decided_by = "ada";
  reason = none;
  current = pending_approval;
}

abbrev reject : Request
reject = record {
  approval_id = "appr_1";
  decision = "reject";
  decided_by = "bob";
  reason = none;
  current = pending_approval;
}

winners-le-one_example : winners "appr_1" (approve ∷ reject ∷ approve ∷ []) one_pending ≤ 1
winners-le-one_example =
    winners-le-one "appr_1" (approve ∷ reject ∷ approve ∷ []) one_pending one_pending-IsKeyed

decide_in_database-verdict_example :
    let (result, w') = decide_in_database "appr_1" "approve" "ada" none one_pending in
    let v = verdict 0 1 (target_of "approve") "ada" none (row "appr_1" one_pending) in
    Answers v result
    × (rows_of "appr_1" w' ≡ left v)
    × ((k : String) → "appr_1" ≢ k → rows_of k w' ≡ rows_of k one_pending)
decide_in_database-verdict_example =
    decide_in_database-verdict "appr_1" "approve" "ada" none one_pending one_pending-IsKeyed

check_eligibility-IsEligible_example :
    let (is_eligible, reason) = check_eligibility default_settings python proposal validation in
    ((is_eligible ≡ true) ↔ IsEligible default_settings proposal validation)
    × ((reason ≡ none) ↔ (is_eligible ≡ true))
check_eligibility-IsEligible_example =
    check_eligibility-IsEligible default_settings python proposal validation

generate-validate_example :
    ((validate_branch_name (generate_branch_name "inc_1" "prop_1") world).0 ≡ ok tt)
    ↔ (is_blank (clean "prop_1") ≡ false)
generate-validate_example = generate-validate "inc_1" "prop_1" world

verify_preflight_invariants-IsCleared_example :
    let (result, after) = verify_preflight_invariants context proposal validation approval world in
    ((result ≡ ok tt) ↔ IsCleared context proposal validation approval) × (after ≡ world)
verify_preflight_invariants-IsCleared_example =
    verify_preflight_invariants-IsCleared context proposal validation approval world

create_pull_request-Delivers_example :
    Delivers github git checkout sandbox python context proposal validation approval world
      (create_pull_request github git checkout sandbox python context proposal validation approval
        world).1
create_pull_request-Delivers_example =
    create_pull_request-Delivers github git checkout sandbox python context proposal validation
      approval world

abbrev validated : ValidationResult
validated = record validation { stdout = "1 passed"; created_at = 2 }

validate_fix-Judges_example :
    Post
      (Judges sandbox checkout proposal context
        (IsPassing sandbox checkout proposal context none world)
        world)
      (IsUnchecked sandbox checkout proposal context none world)
      (validate_fix sandbox checkout proposal context none world)
validate_fix-Judges_example = validate_fix-Judges sandbox checkout proposal context none world

abbrev awaiting : World
awaiting = record world { approvals = approval ∷ []; pipelines = pipeline ∷ [] }

abbrev OneApproval : World → Type 0
OneApproval w = w.approvals ≡ approval ∷ []

OneApproval-Timeless : Timeless OneApproval
OneApproval-Timeless = record { later = λ w h. h }

OneApproval-Stores : Stores pipelines OneApproval
OneApproval-Stores = record { stored = λ rows w h. h }

resume_approval-Gate_example : OneApproval (resume_approval services json "appr_1" awaiting).1
resume_approval-Gate_example =
    resume_approval-Gate services json OneApproval-Timeless OneApproval-Stores
      (λ a r c. record {
        after = λ w h.
            (create_pull_request-Delivers github git checkout sandbox python r.context r.proposal
              r.validation a w).approvals
            ∙ h;
      })
      "appr_1" awaiting refl

abbrev undecided : World
undecided = record world { approvals = pending_approval ∷ []; pipelines = pipeline ∷ [] }

abbrev Untouched : World → Type 0
Untouched w = (w.effects ≡ []) × (w.mutations ≡ [])

Untouched-Timeless : Timeless Untouched
Untouched-Timeless = record { later = λ w h. h }

Untouched-Stores : Stores pipelines Untouched
Untouched-Stores = record { stored = λ rows w h. h }

found_undecided : get_approval "appr_1" undecided ≡ (ok (some pending_approval), undecided)
unfolding get_approval
found_undecided = refl

resume_approval-unapproved_example : Untouched (resume_approval services json "appr_1" undecided).1
resume_approval-unapproved_example =
    resume_approval-unapproved services json Untouched-Timeless Untouched-Stores "appr_1"
      pending_approval undecided found_undecided (λ e. ground arith) (refl, refl)

create_pull_request-Yields_example :
    Post
      (λ r _. r.status ≡ MutationStatus.pr_created)
      (λ _ _. Unit {0})
      (create_pull_request github git checkout sandbox python context proposal validation approval
        world)
create_pull_request-Yields_example =
    create_pull_request-Yields github git checkout sandbox python context proposal validation
      approval world
