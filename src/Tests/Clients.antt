-- ===== src/Tests/Clients.antt =====
-- The theorems of the sandbox, the checkout and the clients, at the incident of Samples.
use akesis.Common.{
  String, ◌≡◌, refl, true, false, none, some, [], ◌∷◌, nat_eq, string_eq, codes, has_part, decimal,
}
use akesis.Domain.{ValidationCommand, ℤ}
use akesis.Config.{default_settings, Settings}
use akesis.Calls.{◌>>=◌, finally, call, ask, choose, rescue, finish, answered, throw, returned}
use akesis.Calls.Post.{Ensures}
use akesis.Http.{list_value, responded, json_string, JsonValue}
use akesis.Sandbox.{
  make_workspace, validate_in, materialize_workspace, materialize, copy_items, apply_patch_exact,
  remove_patch, apply_patch, verify_docker_available, command_invocation, docker_command,
  execute_container, Host, exited, finished, run_validation, truncate_output, docker_sandbox_runner,
  DockerSandboxRunner, make_workspace, verify_docker_available,
}
use akesis.Sandbox.Contained.{IsContained}
use akesis.Sandbox.Containment.{run_validation-IsContained}
use akesis.Sandbox.Truncation.{IsTruncated, truncate_output-IsTruncated}
use akesis.Checkout.{Git, checkout_commit, remote_url, sanitize_git_message}
use akesis.Checkout.Exact.{IsExact, checkout_commit-IsExact}
use akesis.Checkout.Redaction.{sanitize_git_message-redacts}
use akesis.Github.{GithubApi, github_client}
use akesis.Github.Operations.{Operates, github-Operates}
use akesis.Slack.{SlackApi, post_approval_card}
use akesis.Slack.Cards.{IsPosted, post_approval_card-IsPosted}
use akesis.Gemini.{model_response, GeminiApi, ResponseModel, GeminiClient, gemini_client}
use akesis.Http.{dict_value, json_dict}
use akesis.Runtime.{World}
use akesis.Database.Incidents.{JsonReader, get_incident}
use akesis.Database.Incidents.Shown.{Shows, get_incident-Shows}
use akesis.Samples.{
  world, pipeline, approval, json, python, context, proposal, validation, pending_approval,
}

abbrev host : Host
host = record {
  mkdtemp = λ n. returned "/tmp/akesis_val_1";
  exists = λ p n. true;
  is_dir = λ p n. true;
  listdir = λ p n. returned (".git" ∷ "app.py" ∷ []);
  copy = λ a b n. returned tt;
  write_text = λ p t n. returned tt;
  unlink = λ p n. returned tt;
  run = λ argv n. exited (ℤ.pos 0) "";
  start = λ argv n. returned tt;
  communicate = λ timeout n. finished (ℤ.pos 0) "1 passed" "";
  perf_counter = λ n. n;
  resolve = λ p. p;
  format_float = decimal;
  called_process_error = λ argv code. "failed";
}

abbrev runner : DockerSandboxRunner
runner = docker_sandbox_runner default_settings none none none none none

run_validation-IsContained_example :
    Ensures
      (IsContained host runner "--- a/app.py" ValidationCommand.pytest)
      (run_validation host runner "/tmp/repo" "--- a/app.py" ValidationCommand.pytest none)
run_validation-IsContained_example =
    run_validation-IsContained host runner "/tmp/repo" "--- a/app.py" ValidationCommand.pytest none

truncate_output-IsTruncated_example : IsTruncated 6 "0123456789" (truncate_output 6 "0123456789")
truncate_output-IsTruncated_example = truncate_output-IsTruncated 6 "0123456789"

-- a run of the sandbox on this host returns
passing_run :
    (run_validation host runner "/tmp/repo" "--- a/app.py" ValidationCommand.pytest none 0).outcome
    ≡ returned (record {
      exit_code = some (ℤ.pos 0);
      stdout = "1 passed";
      stderr = "";
      duration_ms = 3;
      timed_out = false;
    })
unfolding run_validation ◌>>=◌ make_workspace finally call validate_in materialize_workspace ask
    choose rescue materialize copy_items finish answered apply_patch_exact remove_patch apply_patch
    verify_docker_available throw command_invocation docker_command execute_container
    truncate_output
passing_run = refl

abbrev repository : Git
repository = record {
  exists = λ d n. false;
  makedirs = λ d n. returned tt;
  clone_from = λ u d n. returned tt;
  open_repo = λ d n. returned tt;
  commit = λ d s n. returned tt;
  fetch = λ d u s n. returned tt;
  checkout = λ d s n. returned tt;
  head_hexsha = λ d n. returned "0123abc0123abc0123abc0123abc0123abc01234";
  is_detached = λ d n. returned true;
  repr = λ s. s;
}

abbrev owned : Settings
owned = record default_settings { github_token = "ghp_1" }

checkout_commit-IsExact_example :
    Ensures
      (IsExact "/tmp/akesis/repos" (remote_url owned "acme" "shop" none) "acme" "shop" "0123ABC")
      (checkout_commit owned repository "/tmp/akesis/repos" "acme" "shop" "0123ABC" none)
checkout_commit-IsExact_example =
    checkout_commit-IsExact owned repository "/tmp/akesis/repos" "acme" "shop" "0123ABC" none

sanitize_git_message-redacts_example :
    has_part
      (codes (sanitize_git_message owned "fatal: https://ghp_1@github.com/acme/shop.git failed"))
      (codes owned.github_token)
    ≡ false
sanitize_git_message-redacts_example =
    sanitize_git_message-redacts owned "fatal: https://ghp_1@github.com/acme/shop.git failed" refl
      (refl, (refl, (refl, (refl, (refl, tt)))))

abbrev api : GithubApi
api = record {
  send = λ request n. responded (record { status_code = 200; text = "[]" });
  read_json = λ t. returned (list_value []);
  is_archive = λ t. false;
  unzip = λ t. returned [];
}

github-Operates_example : Operates api (github_client owned none none) "acme" "shop"
github-Operates_example = github-Operates api (github_client owned none none) "acme" "shop"

abbrev slack_api : SlackApi
slack_api = record {
  send = λ request n. responded (record { status_code = 200; text = "ok" });
  time_text = λ n. "1.0";
  status_text = λ res. "error";
}

post_approval_card-IsPosted_example :
    Ensures (IsPosted "https://hooks.slack.com/1" pending_approval.approval_id) (
      post_approval_card python slack_api "https://hooks.slack.com/1" pending_approval context
        proposal validation)
post_approval_card-IsPosted_example =
    post_approval_card-IsPosted pending_approval refl python context proposal validation slack_api
      "https://hooks.slack.com/1" refl

abbrev gemini_api : GeminiApi
gemini_api = record {
  send = λ request n. model_response (record { status_code = 500; text = "" });
  loads = λ t. returned (dict_value []);
  status_text = λ res. "error with key AIza1";
  render = λ v. "";
  shape_text = λ v. "shape";
  format_float = decimal;
  depth = 2;
}

abbrev risk_schema : JsonValue
risk_schema = dict_value (("type", json_string "string") ∷ [])

-- a class with a field of another class
abbrev nested : ResponseModel String
nested = record {
  schema = json_dict (
      ("$defs", dict_value (("Risk", risk_schema) ∷ []))
      ∷ ("risk", dict_value (("$ref", json_string "#/$defs/Risk") ∷ []))
      ∷ []);
  validate = λ v. returned "valid";
}

abbrev gemini : GeminiClient
gemini = gemini_client default_settings (some "AIza1") none none none

abbrev reader : JsonReader
reader = record {
  loads = λ t. none;
  truthy_number = λ n. true;
  as_line = λ v. none;
  as_exit = λ v. none;
}

abbrev stored_world : World
stored_world = record world { pipelines = pipeline ∷ []; approvals = approval ∷ [] }

get_incident-Shows_example :
    Shows json stored_world (pipeline ∷ []) (get_incident reader json "inc_1" stored_world)
get_incident-Shows_example = get_incident-Shows reader json "inc_1" stored_world (
  record {
    context = (refl, (context, refl));
    proposal = (refl, (proposal, refl));
    validation = (refl, (validation, refl));
  },
  tt,
)
