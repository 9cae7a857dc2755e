-- ===== src/Samples.antt =====
-- An incident of a made-up repository, on which the tests run.
use akesis.Common.{true, false, none, some, [], ◌∷◌, nat_eq, string_eq, join, decimal}
use akesis.Domain.{
  FailureCategory, FailureContext, FailureSignal, WorkflowRunConclusion, FixProposal,
  ProposalStatus, RiskLevel, ValidationResult, ValidationStatus, ApprovalRecord, ApprovalStatus,
  MutationRecord, MutationStatus, PipelineRecord, PipelineStatus, ℤ, DiagnosticResult,
  EvidencePackage, EvidenceSufficiency, RetrievalStatus,
}
use akesis.Config.{Python}
use akesis.Runtime.{World, ok, pure}
use akesis.Services.{Services, Json}
use akesis.Mutation.{create_pull_request}
use akesis.Workspace.{PullRequest, GitHubClient, Git}
use akesis.Validation.{SandboxRunner, RepoCheckout, ValidationExecutionResult, validate_fix}

abbrev pub python : Python
python = record {
  round_score = λ x. x;
  format_score = decimal;
  format_files = join ", ";
  format_datetime = decimal;
  format_duration = decimal;
  repr = λ s. s;
  upper = λ s. s;
  isoformat = decimal;
}

abbrev pub signal : FailureSignal
signal = record {
  category = FailureCategory.test;
  error_type = "AssertionError";
  message = "1 != 2";
  target_file = some "src/a.py";
  target_line = some 7;
  extracted_snippet = "assert 1 == 2";
  traceback_frames = [];
}

abbrev pub context : FailureContext
context = record {
  incident_id = "inc_1";
  repository_owner = "octo";
  repository_name = "demo";
  run_id = 42;
  workflow_name = "ci";
  commit_sha = "abc";
  branch = "feature";
  run_url = "https://github.com/octo/demo/actions/runs/42";
  conclusion = WorkflowRunConclusion.failure;
  signal = signal;
  raw_log_excerpt = "E assert 1 == 2";
  created_at = 0;
}

abbrev pub proposal : FixProposal
proposal = record {
  proposal_id = "prop_1";
  incident_id = "inc_1";
  diagnosis_id = none;
  commit_sha = "abc";
  status = ProposalStatus.proposed;
  is_valid = true;
  rejection_reasons = [];
  unified_diff = "--- a/src/a.py";
  file_patches = [];
  target_files = "src/a.py" ∷ [];
  rationale = "the test is off by one";
  assumptions = [];
  risk_level = RiskLevel.low;
  has_dependency_changes = false;
  confidence_score = 900_000;
  created_at = 0;
}

abbrev pub validation : ValidationResult
validation = record {
  validation_id = "val_prop_1";
  proposal_id = "prop_1";
  incident_id = "inc_1";
  commit_sha = "abc";
  status = ValidationStatus.passed;
  command_executed = "pytest";
  exit_code = some (ℤ.pos 0);
  stdout = "";
  stderr = "";
  duration_ms = 5;
  timed_out = false;
  failure_reason = none;
  created_at = 0;
}

abbrev pub pending_approval : ApprovalRecord
pending_approval = record {
  approval_id = "appr_1";
  incident_id = "inc_1";
  diagnosis_id = none;
  proposal_id = "prop_1";
  commit_sha = "abc";
  status = ApprovalStatus.pending;
  slack_channel_id = none;
  slack_message_ts = none;
  requested_at = 0;
  decided_at = none;
  decided_by = none;
  decision_reason = none;
  expires_at = some 100;
  created_at = 0;
  updated_at = 0;
}

abbrev pub approval : ApprovalRecord
approval = record pending_approval {
  status = ApprovalStatus.approved;
  decided_by = some "ada";
  decided_at = some 3;
}

abbrev pub mutation : MutationRecord
mutation = record {
  mutation_id = "mut_1";
  proposal_id = "prop_1";
  approval_id = "appr_1";
  incident_id = "inc_1";
  repository_owner = "octo";
  repository_name = "demo";
  base_commit_sha = "abc";
  branch_name = "akesis/fix/inc_1/prop_1";
  resulting_commit_sha = none;
  validation_status = none;
  pr_number = none;
  pr_url = none;
  status = MutationStatus.failed;
  failure_reason = none;
  created_at = 0;
  updated_at = 0;
}

abbrev pub pipeline : PipelineRecord
pipeline = record {
  pipeline_id = "pipe_inc_1";
  incident_id = "inc_1";
  repository_owner = "octo";
  repository_name = "demo";
  run_id = 42;
  commit_sha = "abc";
  status = PipelineStatus.awaiting_approval;
  diagnosis_id = some "diag_inc_1";
  proposal_id = some "prop_1";
  approval_id = some "appr_1";
  mutation_id = none;
  pr_number = none;
  pr_url = none;
  failure_reason = none;
  failure_context_json = some "{context}";
  proposal_json = some "{proposal}";
  validation_json = some "{validation}";
  created_at = 0;
  updated_at = 0;
}

-- the clock moves by one at each reading
abbrev pub world : World
world = record {
  approvals = [];
  mutations = [];
  pipelines = [];
  effects = [];
  times = λ n. n;
  uuids = λ n. "0123456789abcdef";
  reads = 0;
}

abbrev pub run : ValidationExecutionResult
run = record {
  exit_code = some (ℤ.pos 0);
  stdout = "1 passed";
  stderr = "";
  duration_ms = 5;
  timed_out = false;
}

abbrev pub sandbox : SandboxRunner
sandbox = record { run_validation = λ root diff command n. ok run }

abbrev pub checkout : RepoCheckout
checkout = record { checkout_commit = λ owner name sha n. ok "/checkout" }

abbrev pub pull_request : PullRequest
pull_request = record {
  number = some 9;
  html_url = some "https://github.com/octo/demo/pull/9";
  head_sha = some "def";
}

abbrev pub github : GitHubClient
github = record {
  find_pull_request = λ owner name head base n. ok none;
  create_pull_request = λ owner name title body head base n. ok pull_request;
}

abbrev pub git : Git
git = record {
  open_workspace = λ dir n. ok tt;
  head_sha = λ n. ok "abc";
  heads = λ n. ok ("main" ∷ []);
  switch = λ b n. ok tt;
  switch_new = λ b n. ok tt;
  write_patch = λ d n. ok tt;
  apply_check = λ n. ok (ℤ.pos 0, "");
  apply = λ n. ok (ℤ.pos 0, "");
  remove_patch = λ n. ok tt;
  changed_files = λ n. ok ("src/a.py" ∷ []);
  untracked_files = λ n. ok [];
  add_all = λ n. ok tt;
  commit = λ m n. ok "def";
  remotes = λ n. ok ("origin" ∷ []);
  push = λ b n. ok tt;
}

abbrev pub json : Json
json = record {
  dump_context = λ c. "{context}";
  dump_proposal = λ p. "{proposal}";
  dump_validation = λ v. "{validation}";
  load_context = λ s. ok context;
  load_proposal = λ s. ok proposal;
  load_validation = λ s. ok validation;
}

abbrev pub diagnosis : DiagnosticResult
diagnosis = record {
  incident_id = "inc_1";
  proposal = record {
    category = FailureCategory.test;
    root_cause = "off by one";
    evidence = [];
    target_file = some "src/a.py";
    target_line = some 7;
    remediation_direction = record {
      summary = "fix";
      suggested_action = "edit";
      risk_assessment = "low";
    };
    is_fixable = true;
    confidence_score = 900_000;
    evidence_sufficiency = EvidenceSufficiency.sufficient;
    reasoning = "the assertion says so";
  };
  human_review_required = true;
  model_name = "model";
  execution_time_ms = 5;
  evidence_package = none;
  created_at = 0;
}

abbrev pub evidence : EvidencePackage
evidence = record {
  incident_id = "inc_1";
  commit_sha = "abc";
  failure_context = context;
  code_evidences =
      record {
        path = "src/a.py";
        start_line = 1;
        end_line = 9;
        target_line = some 7;
        content = "x";
        total_file_lines = 9;
        language = "python";
      }
      ∷ [];
  retrieval_status = RetrievalStatus.success;
  retrieval_notes = [];
  created_at = 0;
}

-- the deliveries are the mutation service's, on the samples; the other services answer samples
abbrev pub services : Services
services = record {
  diagnose_failure = λ c. pure diagnosis;
  resolve_context = λ c. pure evidence;
  generate_fix_proposal = λ c e d. pure proposal;
  validate_fix = λ p c. validate_fix sandbox checkout p c none;
  request_approval = λ c p v. pure pending_approval;
  create_pull_request = create_pull_request github git checkout sandbox python;
}
