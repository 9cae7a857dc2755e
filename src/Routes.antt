-- ===== src/Routes.antt =====
-- The two endpoints of src/apps/api/routes.py that change state, `verify_slack_signature` of
-- src/packages/sdk/slack_client.py and `verify_read_token` of src/packages/shared/security.py. Texts
-- stand for bytes; the HMAC, the parsers and the log reader are parameters. That `compare_digest`
-- raises on texts that are not ASCII is not modelled.
pub mod Handlers
pub mod Reading
pub mod Interaction
pub mod Signatures
use akesis.Common.{
  ℕ, zero, suc, ◌+◌, ◌-◌, ◌*◌, ◌/◌, ◌%◌, ◌≤◌, ◌<◌, min, max, String, ◌≡◌, refl, sym, ap, ◌∙◌, ◌≢◌,
  ◌↔◌, ◌⊎◌, inl, inr, Bool, true, false, not, ◌&&◌, ◌||◌, Option, none, some, List, [], ◌∷◌, ◌++◌,
  map, arith, eq_iff, eq_refl, Eq, ◌==◌, nat_eq, string_eq, if◌then◌else◌, ltb, leb, Bool-cases,
  Option-cases, and-false, codes, keep, lower, starts, has_part, last_is, same_codes, is_some,
  or_else, length, is_empty, any, all, select, update, length-append, All, contains, dedupe, concat,
  join, prefix, is_blank, text_or, decimal,
}
use akesis.Domain.{
  Datetime, ApprovalStatus, approval_eq, FailureCategory, FailureContext, FailureSignal,
  WorkflowRunEvent, WorkflowRunConclusion,
}
use akesis.Config.{Settings}
use akesis.Runtime.{
  M, Result, ok, err, ErrorKind, Effect, ◌>>=◌, ◌>>◌, pure, now, uuid_hex, emit, attempt,
}

-- one element of "actions" of Slack's payload
pub record SlackAction : Type 0 where
  pub action_id : Option String
  pub value : Option String

pub record SlackUser : Type 0 where
  pub username : Option String
  pub name : Option String
  pub id : Option String

pub record SlackPayload : Type 0 where
  pub actions : List SlackAction
  pub user : SlackUser
  pub response_url : Option String

-- "workflow_run" of GitHub's payload
pub record WorkflowRun : Type 0 where
  pub id : Option ℕ
  pub name : Option String
  pub head_branch : Option String
  pub head_sha : Option String
  pub html_url : Option String
  pub conclusion : Option String

-- "repository" of GitHub's payload
pub record Repository : Type 0 where
  pub owner_login : Option String
  pub name : Option String

-- `none` stands for an object that is missing or empty
pub record WebhookPayload : Type 0 where
  pub action : Option String
  pub workflow_run : Option WorkflowRun
  pub repository : Option Repository
  pub sender_login : Option String

-- What the endpoints call outside the program, and the reader of logs.
pub record Web : Type 0 where
  -- `hmac.new(key, msg, sha256).hexdigest()`
  pub hmac_hex : String → String → String
  -- `int(text)` of a time in seconds that is not negative
  pub parse_int : String → Option ℕ
  -- `int(time.time())`
  pub seconds : Datetime → ℕ
  pub parse_interaction : String → Result SlackPayload
  pub parse_webhook : String → Result WebhookPayload
  pub parse_conclusion : String → Option WorkflowRunConclusion
  pub get_workflow_run_logs : String → String → ℕ → ℕ → Result String
  pub filter_and_extract_signal : String → FailureSignal

pub record IngestionResponse : Type 0 where
  pub status : String
  pub incident_id : Option String
  pub category : Option FailureCategory
  pub message : String

pub record InteractionResponse : Type 0 where
  pub approval_id : String
  pub decision : ApprovalStatus
  pub is_duplicate : Bool

-- `not text`
abbrev is_absent : Option String → Bool
is_absent none = true
is_absent (some s) = is_blank s

-- `abs(a - b)`
abbrev pub distance : ℕ → ℕ → ℕ
distance a b = (a - b) + (b - a)

abbrev pub ignored : String → IngestionResponse
ignored message = record {
  status = "ignored";
  incident_id = none;
  category = none;
  message = message;
}

abbrev pub is_failure : WorkflowRunConclusion → Bool
is_failure WorkflowRunConclusion.failure = true
is_failure _ = false

module _ (web : Web) where
  -- `compare_digest` of the header after "sha256=" and the digest is the test for the whole header
  unfoldable pub verify_github_signature : String → Option String → String → Bool
  verify_github_signature payload none secret = false
  verify_github_signature payload (some header) secret =
      not (is_blank header || is_blank secret)
      && header == concat ("sha256=" ∷ web.hmac_hex secret payload ∷ [])

  unfoldable pub verify_slack_signature : String → Option String → Option String → String → ℕ → Bool
  verify_slack_signature body (some timestamp) (some signature) signing_secret current =
      not (is_blank timestamp || (is_blank signature || is_blank signing_secret))
      && (elim (web.parse_int timestamp) [
        | none ↦ false
        | some req_time ↦ leb (distance current req_time) 300
      ]
          && concat (
              "v0="
              ∷ web.hmac_hex signing_secret (concat ("v0:" ∷ timestamp ∷ ":" ∷ body ∷ []))
              ∷ [])
            == signature)
  verify_slack_signature body _ _ signing_secret current = false

  abbrev pub conclusion_of : WorkflowRun → WorkflowRunConclusion
  conclusion_of run =
      or_else (web.parse_conclusion (text_or run.conclusion "unknown"))
        WorkflowRunConclusion.unknown

  abbrev pub event_of : WebhookPayload → WorkflowRun → Repository → WorkflowRunEvent
  event_of payload run repo = record {
    event_type = "workflow_run";
    action = or_else payload.action "";
    repository_owner = or_else repo.owner_login "unknown";
    repository_name = or_else repo.name "unknown";
    run_id = or_else run.id 0;
    workflow_name = or_else run.name "Unnamed Workflow";
    head_branch = or_else run.head_branch "unknown";
    head_sha = or_else run.head_sha "unknown";
    run_url = or_else run.html_url "";
    conclusion = conclusion_of run;
    sender = payload.sender_login;
  }

  -- the logs, or what stands for them
  abbrev logs_of : Result String → String
  logs_of (ok logs) = logs
  logs_of (err e) = elim e.kind [
    | ErrorKind.log_not_found ↦ "Log output unavailable from GitHub API"
    | _ ↦ concat ("Log retrieval error: " ∷ e.message ∷ [])
  ]

  abbrev pub context_of : WorkflowRunEvent → String → FailureSignal → Datetime → FailureContext
  context_of event incident_id signal t = record {
    incident_id = incident_id;
    repository_owner = event.repository_owner;
    repository_name = event.repository_name;
    run_id = event.run_id;
    workflow_name = event.workflow_name;
    commit_sha = event.head_sha;
    branch = event.head_branch;
    run_url = event.run_url;
    conclusion = event.conclusion;
    signal = signal;
    raw_log_excerpt = signal.extracted_snippet;
    created_at = t;
  }

  -- steps 6 to 8, of a failed run
  unfoldable pub ingest : WorkflowRunEvent → M IngestionResponse
  ingest event = do
    hex ← uuid_hex
    let incident_id = concat ("inc_" ∷ prefix 12 hex ∷ [])
    logs ←
        attempt
          (web.get_workflow_run_logs event.repository_owner event.repository_name event.run_id)
    let signal = web.filter_and_extract_signal (logs_of logs)
    t ← now
    emit (Effect.process_scheduled (context_of event incident_id signal t))
    pure (record {
      status = "accepted";
      incident_id = some incident_id;
      category = some signal.category;
      message = concat (
          "Remediation pipeline scheduled for "
          ∷ signal.error_type
          ∷ " in "
          ∷ text_or signal.target_file "unknown file"
          ∷ []);
    })
