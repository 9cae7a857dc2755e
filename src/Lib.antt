-- ===== src/Lib.antt =====
-- Akesis reads a failed CI run, asks a model for a diagnosis and a fix, tries the fix in a sandbox,
-- asks a human in Slack, and only then pushes a branch and opens a pull request. This library
-- models the deterministic part: what is stored, who may decide, and when the outside is touched.
--
-- The parts, by file (paths from the repository's root):
--   Common, Runtime    shared lists, texts and tests; the state (the three tables, the effects that
--                      the outside sees, clock and generator), actions with exceptions, and the
--                      rules for invariants that actions keep
--   Domain             src/packages/shared/models.py: enumerations and records
--   Config             src/packages/shared/config.py: the settings that are read, and
--                      `_validate_production_configuration`
--   Logs               src/packages/shared/log_parser.py: `strip_ansi_codes`,
--                      `filter_and_extract_signal`
--   Paths, Context     src/packages/shared/context_resolver.py: `normalize_repo_relative_path`,
--                      `is_path_safe_and_within_root`, `resolve_context`
--   Patch              src/packages/shared/patch_validator.py: the patterns, `_parse_unified_diff`,
--                      `validate_patch`
--   Database           src/packages/database/repositories.py: the tables and their operations, the
--                      pages of recent pipelines, the details of incidents
--   Approval           src/packages/shared/approval_service.py: `check_eligibility`,
--                      `request_approval`, `record_decision`
--   Validation         src/packages/shared/validation_service.py: `validate_fix`
--   Branch, Workspace, Mutation
--                      src/packages/shared/mutation_service.py: branch names, what is asked of git
--                      and of GitHub, `verify_preflight_invariants` and `create_pull_request`
--   Calls              programs that call others: what they return or raise, and their calls in order,
--                      with a rule of postconditions for each way to put programs together
--   Sandbox            src/packages/sdk/sandbox_runner.py: `DockerSandboxRunner.run_validation`, its
--                      steps and `_truncate_output`
--   Checkout           src/packages/sdk/repo_checkout.py: `checkout_commit`, `_sanitize_git_message`
--   Http, Github       src/packages/sdk/github_client.py: requests, answers and JSON values; the five
--                      operations of `GitHubClient` and `_handle_error`
--   Slack              src/packages/sdk/slack_client.py: `post_approval_card`,
--                      `update_approval_card` and their blocks
--   Gemini             src/packages/sdk/llm_client.py: `dereference_json_schema` and
--                      `GeminiClient.generate_structured`
--   Diagnosis          src/packages/shared/diagnostic_service.py: `diagnose_failure`
--   Fix                src/packages/shared/fix_service.py: `generate_fix_proposal`
--   Services, Orchestrator, Resume
--                      src/packages/shared/remediation_orchestrator.py: the services' protocols,
--                      `process_failure` and `resume_approval`
--   Routes             src/apps/api/routes.py, with `verify_slack_signature` of
--                      src/packages/sdk/slack_client.py and src/packages/shared/security.py
--   Samples, Tests     one made-up incident, and the theorems at it
--
-- A method of a service is an action `World → Result × World`; an exception is a `Result` that keeps
-- the state reached. A method of a client of src/packages/sdk is a program that records its calls;
-- Sandbox and Checkout fill the interfaces of Validation. Git, the file system, Docker, HTTP, the
-- HMAC, JSON, ZIP and Python's formatting of floats and dates are parameters, and may answer
-- differently at each call (`reads` counts the
-- calls); a checked-out repository is a parameter that does not change while it is read. A redirect
-- that a request lets httpx follow is part of its answer. How the database sorts the rows of a query
-- is a parameter, `order_by`, which is given the terms of the ORDER BY. Datetimes are microseconds; a score between 0.0 and 1.0 is a number of millionths. The code points of a
-- text stand for its characters. Fuel is used by `decimal`, which is given one unit for each digit and
-- more, and by `resolve`, where it stands for the recursion limit: a depth that reaches the ranks of
-- acyclic definitions is enough (Gemini/Acyclic). The loop of `resolve_context`, whose list grows while it runs, ends because
-- a file that adds candidates uses up one of the files that may be taken.
--
-- Not modelled: logging; the patterns that a log is searched for, whose matches are a parameter; the
-- model's prompts; what Docker does with the command line it is
-- given; the cancellation of a running method; the environment that the settings are read from; the
-- transaction isolation of the database, where each operation of a repository is one step.
pub mod Common
pub mod Domain
pub mod Config
pub mod Logs
pub mod Context
pub mod Paths
pub mod Approval
pub mod Validation
pub mod Branch
pub mod Workspace
pub mod Mutation
pub mod Sandbox
pub mod Http
pub mod Github
pub mod Checkout
pub mod Runtime
pub mod Calls
pub mod Database
pub mod Diagnosis
pub mod Patch
pub mod Fix
pub mod Services
pub mod Orchestrator
pub mod Resume
pub mod Gemini
pub mod Routes
pub mod Slack
pub mod Samples
pub mod Tests
