-- ===== src/Tests/Endpoints.antt =====
-- The theorems of the endpoints and of `process_failure`, at the incident of Samples.
use akesis.Common.{
  ◌≡◌, refl, ◌∙◌, ◌↔◌, true, false, none, some, List, [], ◌∷◌, ◌++◌, arith, ◌==◌, nat_eq, string_eq,
  if◌then◌else◌,
}
use akesis.Domain.{PipelineRecord, WorkflowRunConclusion}
use akesis.Config.{default_settings}
use akesis.Runtime.{World, ok, err, ErrorKind}
use akesis.Runtime.Keeps.{Timeless}
use akesis.Runtime.Post.{Post}
use akesis.Approval.{SlackClient, target_of}
use akesis.Approval.Lifecycle.{verdict, row}
use akesis.Database.Approvals.Laws.{IsKeyed}
use akesis.Validation.Passing.{validate_fix-Keeps}
use akesis.Mutation.Delivery.{create_pull_request-Delivers}
use akesis.Services.{AllKeep}
use akesis.Orchestrator.{process_failure}
use akesis.Orchestrator.Settles.{Ends, process_failure-Ends}
use akesis.Routes.{
  Web, SlackPayload, WebhookPayload, verify_slack_signature, verify_github_signature,
}
use akesis.Routes.Handlers.{decide_and_respond, handle_github_webhook}
use akesis.Routes.Interaction.{resumes, scheduled, decide_and_respond-resumes}
use akesis.Routes.Signatures.{
  IsSigned, Ingests, verify_slack_signature-IsSigned, handle_github_webhook-Ingests,
}
use akesis.Database.Table.Stores.{Stores}
use akesis.Database.Pipelines.{pipelines}
use akesis.Orchestrator.Gate.{PresentsOnly, process_failure-Gate}
use akesis.Diagnosis.{DiagnosisModel, ContextResolver, diagnose_failure}
use akesis.Diagnosis.Outcome.{Concludes, IsUnresolved, diagnose_failure-Concludes}
use akesis.Domain.{RiskLevel}
use akesis.Fix.{PatchValidator, FixModel, generate_fix_proposal}
use akesis.Fix.Outcome.{IsVetted, generate_fix_proposal-IsVetted}
use akesis.Samples.{
  python, signal, context, pending_approval, world, sandbox, checkout, github, git, json, services,
  evidence, diagnosis,
}

abbrev slack : SlackClient
slack = record {
  post_approval_card = λ r c p v n. ok (record { channel_id = some "C1"; message_ts = some "1" });
  update_approval_card = λ url r n. ok true;
}

abbrev interaction : SlackPayload
interaction = record {
  actions = record { action_id = some "approve_fix"; value = some "appr_1" } ∷ [];
  user = record { username = some "ada"; name = none; id = none };
  response_url = some "https://hooks.slack.com/1";
}

abbrev delivery : WebhookPayload
delivery = record {
  action = some "completed";
  workflow_run = some (record {
    id = some 42;
    name = some "ci";
    head_branch = some "feature";
    head_sha = some "abc";
    html_url = some "https://github.com/octo/demo/actions/runs/42";
    conclusion = some "failure";
  });
  repository = some (record { owner_login = some "octo"; name = some "demo" });
  sender_login = some "ada";
}

abbrev web : Web
web = record {
  hmac_hex = λ key message. "d1ge57";
  parse_int = λ s. if s == "1700" then some 1700 else none;
  seconds = λ t. t;
  parse_interaction = λ s. ok interaction;
  parse_webhook = λ s. ok delivery;
  parse_conclusion = λ s. if s == "failure" then some WorkflowRunConclusion.failure else none;
  get_workflow_run_logs = λ owner name id n. ok "E assert 1 == 2";
  filter_and_extract_signal = λ logs. signal;
}

abbrev asked : World
asked = record world { approvals = pending_approval ∷ [] }

asked-IsKeyed : IsKeyed asked
asked-IsKeyed id = ground arith

decide_and_respond-resumes_example :
    let v = verdict 0 1 (target_of "approve") "ada" none (row "appr_1" asked) in
    resumes
      (decide_and_respond slack "appr_1" "approve" "ada" (some "https://hooks.slack.com/1") asked).1
    ≡ scheduled v ++ resumes asked
decide_and_respond-resumes_example =
    decide_and_respond-resumes slack "appr_1" "approve" "ada" (some "https://hooks.slack.com/1")
      asked asked-IsKeyed

verify_slack_signature-IsSigned_example :
    (verify_slack_signature web "payload" (some "1700") (some "v0=d1ge57") "secret" 1800 ≡ true)
    ↔ IsSigned web "payload" "1700" "v0=d1ge57" "secret" 1800
verify_slack_signature-IsSigned_example =
    verify_slack_signature-IsSigned web "payload" "1700" "v0=d1ge57" "secret" 1800

handle_github_webhook-Ingests_example :
    Ingests web default_settings
      (verify_github_signature web "{}" (some "sha256=d1ge57") "test_webhook_secret")
      world
      (handle_github_webhook web default_settings "{}"
        (some "workflow_run")
        (some "sha256=d1ge57")
        world).1
handle_github_webhook-Ingests_example =
    handle_github_webhook-Ingests web default_settings "{}" (some "workflow_run")
      (some "sha256=d1ge57") world

Pipelines-Timeless : (ps : List PipelineRecord) → Timeless (λ w. w.pipelines ≡ ps)
Pipelines-Timeless ps = record { later = λ w h. h }

services-quiet : (ps : List PipelineRecord) → AllKeep services (λ w. w.pipelines ≡ ps)
services-quiet ps = record {
  diagnoses = λ c. record { after = λ w h. h };
  resolves = λ c. record { after = λ w h. h };
  generates = λ c e d. record { after = λ w h. h };
  validates = λ p c. validate_fix-Keeps sandbox checkout p c (Pipelines-Timeless ps) none;
  requests = λ c p v. record { after = λ w h. h };
  creates = λ c p v a. record {
    after = λ w h.
        (create_pull_request-Delivers github git checkout sandbox python c p v a w).pipelines ∙ h;
  };
}

process_failure-Ends_example :
    Post
      (Ends services json python context)
      (λ _ _. ⊥)
      (process_failure services json python context world)
process_failure-Ends_example =
    process_failure-Ends services json python context services-quiet world refl

abbrev Unseen : World → Type 0
Unseen w = w.effects ≡ []

Unseen-Timeless : Timeless Unseen
Unseen-Timeless = record { later = λ w h. h }

Unseen-PresentsOnly : PresentsOnly services Unseen
Unseen-PresentsOnly = record {
  diagnoses = λ c. record { after = λ w h. h };
  resolves = λ c. record { after = λ w h. h };
  generates = λ c e d. record { after = λ w h. h };
  validates = λ p c. validate_fix-Keeps sandbox checkout p c Unseen-Timeless none;
  requests = λ c p v presentable. record { after = λ w h. h };
}

Unseen-Stores : Stores pipelines Unseen
Unseen-Stores = record { stored = λ rows w h. h }

process_failure-Gate_example : Unseen (process_failure services json python context world).1
process_failure-Gate_example =
    process_failure-Gate services json python Unseen-Timeless Unseen-Stores Unseen-PresentsOnly
      context world refl

-- the model's client is down
abbrev no_model : DiagnosisModel
no_model = record {
  model_name = "model";
  diagnose = λ c e n. err (record { kind = ErrorKind.llm; message = "timeout" });
}

abbrev resolver : ContextResolver
resolver = record { resolve_context = λ c n. ok evidence }

diagnose_failure-Concludes_example :
    Post
      (Concludes no_model resolver python context none world)
      (IsUnresolved no_model resolver python context none world)
      (diagnose_failure no_model resolver python context none world)
diagnose_failure-Concludes_example =
    diagnose_failure-Concludes no_model resolver python context none world

-- accepts any diff
abbrev lenient : PatchValidator
lenient = record {
  validate_patch = λ diff files e d. record {
    is_valid = true;
    rejection_reasons = [];
    file_patches = [];
    target_files = files;
    risk_level = RiskLevel.low;
    has_dependency_changes = false;
  };
}

abbrev fix_model : FixModel
fix_model = record {
  propose = λ c d e n. ok (record {
    explanation = "the test is off by one";
    target_files = "src/a.py" ∷ [];
    unified_diff = "--- a/src/a.py";
    assumptions = [];
    risk_assessment = "low";
    estimated_risk_level = RiskLevel.low;
    confidence_score = 900_000;
  });
}

generate_fix_proposal-IsVetted_example :
    Post
      (λ p _.
        IsVetted default_settings python context diagnosis lenient fix_model (some evidence) p)
      (λ _ _. ⊥)
      (generate_fix_proposal default_settings python context diagnosis lenient fix_model
        (some evidence)
        world)
generate_fix_proposal-IsVetted_example =
    generate_fix_proposal-IsVetted default_settings python context diagnosis lenient fix_model
      (some evidence) world

-- a collation by length
