-- ===== src/Orchestrator/Gate.antt =====
-- What `process_failure` of src/packages/shared/remediation_orchestrator.py shows to a human.
use akesis.Common.{zero, ◌≡◌, true, false, not, ◌||◌, Option, none, some, arith, nat_eq, string_eq}
use akesis.Domain.{
  FailureContext, DiagnosticResult, EvidencePackage, FixProposal, ProposalStatus, ValidationResult,
  ValidationStatus, PipelineRecord, PipelineStatus, is_passed, is_proposed, is_zero_exit, ℤ,
  Datetime,
}
use akesis.Config.{Python}
use akesis.Runtime.{World}
use akesis.Runtime.Keeps.{Keeps, Timeless, keeps_rules, Keeps-branch, Keeps-bind, Keeps-catch}
use akesis.Database.Table.Stores.{Stores}
use akesis.Database.Pipelines.{pipelines, Changes}
use akesis.Database.Pipelines.Stores.{update-Keeps, create-Keeps, by_incident-Keeps}
use akesis.Services.{Services, Json}
use akesis.Orchestrator.{
  finish, authorize, validate, propose, resolve, stages, guarded, unless_exists, process_failure,
}

-- A proposal that is valid and in state `proposed`, with a validation that passed with exit code 0.
pub record IsPresentable (proposal : FixProposal) (validation : ValidationResult) : Type 0 where
  pub valid : proposal.is_valid ≡ true
  pub proposed : proposal.status ≡ ProposalStatus.proposed
  pub passed : validation.status ≡ ValidationStatus.passed
  pub exit_zero : validation.exit_code ≡ some (ℤ.pos zero)

presentable :
    (p : FixProposal) (v : ValidationResult)
    → (not p.is_valid || not (is_proposed p.status)) ≡ false
    → (not (is_passed v.status) || not (is_zero_exit v.exit_code)) ≡ false
    → IsPresentable p v
presentable p v h k = record {
  valid = ground arith;
  proposed = ground arith;
  passed = ground arith;
  exit_zero = ground arith;
}

-- Every service keeps the invariant, the request for approval on what may be presented.
pub record PresentsOnly (services : Services) (P : World → Type 0) : Type 0 where
  pub diagnoses : (c : FailureContext) → Keeps P (services.diagnose_failure c)
  pub resolves : (c : FailureContext) → Keeps P (services.resolve_context c)
  pub generates :
      (c : FailureContext) (e : EvidencePackage) (d : DiagnosticResult)
      → Keeps P (services.generate_fix_proposal c e d)
  pub validates : (p : FixProposal) (c : FailureContext) → Keeps P (services.validate_fix p c)
  pub requests :
      (c : FailureContext) (p : FixProposal) (v : ValidationResult)
      → IsPresentable p v
      → Keeps P (services.request_approval c p v)

module _ (services : Services) (json : Json) (python : Python) {P : World → Type 0} (t : Timeless P)
    (s : Stores pipelines P) (keeps : PresentsOnly services P) (context : FailureContext) where
  module _ (received : PipelineRecord) where
    finish-Keeps :
        (status : PipelineStatus) (c : Changes)
        → Keeps P (finish services json python context received status c)
    unfolding finish
    finish-Keeps status c = search (keeps_rules, update-Keeps, t, s)

    authorize-Keeps :
        (p : FixProposal) (v : ValidationResult)
        → IsPresentable p v
        → Keeps P (authorize services json python context received p v)
    unfolding authorize
    authorize-Keeps p v h = Keeps-bind _ _ (keeps.requests context p v h) (λ a. finish-Keeps _ _)

    validate-Keeps :
        (p : FixProposal)
        → (not p.is_valid || not (is_proposed p.status)) ≡ false
        → Keeps P (validate services json python context received p)
    unfolding validate
    validate-Keeps p h = Keeps-bind _ _ (update-Keeps t s _ _ _) (λ _.
        Keeps-bind _ _ (keeps.validates p context) (λ v.
          Keeps-branch _ _ _ (λ _. finish-Keeps _ _)
            (λ k. authorize-Keeps p v (presentable p v h k))))

    propose-Keeps :
        (d : DiagnosticResult) (e : EvidencePackage)
        → Keeps P (propose services json python context received d e)
    unfolding propose
    propose-Keeps d e = Keeps-bind _ _ (update-Keeps t s _ _ _) (λ _.
        Keeps-bind _ _ (keeps.generates context e d)
          (λ p. Keeps-branch _ _ _ (λ _. finish-Keeps _ _) (validate-Keeps p)))

    resolve-Keeps :
        (d : DiagnosticResult) → Keeps P (resolve services json python context received d)
    unfolding resolve
    resolve-Keeps d = search (keeps_rules, keeps.resolves, finish-Keeps, propose-Keeps)

    stages-Keeps : Keeps P (stages services json python context received)
    unfolding stages
    stages-Keeps =
        search (keeps_rules, update-Keeps, t, s, keeps.diagnoses, finish-Keeps, resolve-Keeps)

    guarded-Keeps : Keeps P (guarded services json python context received)
    unfolding guarded
    guarded-Keeps = Keeps-catch _ _ stages-Keeps (λ e. finish-Keeps _ _)

  unless_exists-Keeps :
      (at : Datetime) (o : Option PipelineRecord)
      → Keeps P (unless_exists services json python at context o)
  unfolding unless_exists
  unless_exists-Keeps at none = search (keeps_rules, create-Keeps, t, s, guarded-Keeps)
  unless_exists-Keeps at (some r) = search keeps_rules

  -- Any invariant of the system that says nothing of the clock and of the pipelines' table is kept by
  -- `process_failure`, whatever it returns or raises, if every service keeps it and the request for
  -- approval keeps it on a valid proposal in state `proposed` whose validation passed with exit code
  -- 0: a human is never asked about anything else.
  pub process_failure-Gate :
      (w : World) → P w → P (process_failure services json python context w).1
  unfolding process_failure
  process_failure-Gate = process-Keeps.after
    where
      process-Keeps : Keeps P (process_failure services json python context)
      process-Keeps = search (keeps_rules, t, by_incident-Keeps, unless_exists-Keeps)
