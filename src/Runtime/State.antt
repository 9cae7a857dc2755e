-- ===== src/Runtime/State.antt =====
-- The state of the running system.
use akesis.Common.{ℕ, String, List, nat_eq, string_eq}
use akesis.Domain.{Datetime, ApprovalRecord, MutationRecord, PipelineRecord, FailureContext}

-- What the outside can see of the system, apart from the database.
pub data Effect : Type 0 where
  -- an approval card was posted to Slack, or updated, for this approval
  card_posted card_updated : String → Effect
  -- a branch was pushed to the remote `origin` of a repository: owner, name, branch
  branch_pushed : String → String → String → Effect
  -- a pull request was opened: owner, name, head branch, base branch
  pr_opened : String → String → String → String → Effect
  -- a background task was scheduled: `_safe_process_failure` for a failure
  process_scheduled : FailureContext → Effect
  -- `_safe_resume_approval` for an approval
  resume_scheduled : String → Effect

-- `times` and `uuids` are what the clock and the generator answer at each reading; `reads` counts
-- the readings and the calls of other programs.
pub record World : Type 0 where
  pub approvals : List ApprovalRecord
  pub mutations : List MutationRecord
  pub pipelines : List PipelineRecord
  pub effects : List Effect
  pub times : ℕ → Datetime
  pub uuids : ℕ → String
  pub reads : ℕ
