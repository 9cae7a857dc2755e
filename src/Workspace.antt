-- ===== src/Workspace.antt =====
-- What the code asks of GitHub (GitHubClientProtocol of src/packages/sdk/github_client.py) and of git
-- and the file system (in src/packages/shared/mutation_service.py).
use akesis.Common.{ℕ, String, Option, List, nat_eq, string_eq}
use akesis.Domain.{ℤ}
use akesis.Runtime.{Result}

-- What GitHub says of a pull request: `number`, `html_url` and the `sha` of its `head`.
pub record PullRequest : Type 0 where
  pub number : Option ℕ
  pub html_url : Option String
  pub head_sha : Option String

-- class GitHubClientProtocol of src/packages/sdk/github_client.py: owner, repository, title, body,
-- head branch, base branch
pub record GitHubClient : Type 0 where
  pub find_pull_request : String → String → String → String → ℕ → Result (Option PullRequest)
  pub create_pull_request :
      String → String → String → String → String → String → ℕ → Result PullRequest

-- What the code asks of git and of the file system, in the order in which it asks.
pub record Git : Type 0 where
  -- `tempfile.mkdtemp`, `shutil.copytree` and `git.Repo`
  pub open_workspace : String → ℕ → Result (Unit {0})
  pub head_sha : ℕ → Result String
  pub heads : ℕ → Result (List String)
  pub switch : String → ℕ → Result (Unit {0})
  pub switch_new : String → ℕ → Result (Unit {0})
  pub write_patch : String → ℕ → Result (Unit {0})
  -- the return code and the stripped standard error of `git apply --check` and `git apply`
  pub apply_check : ℕ → Result (ℤ × String)
  pub apply : ℕ → Result (ℤ × String)
  pub remove_patch : ℕ → Result (Unit {0})
  pub changed_files : ℕ → Result (List String)
  pub untracked_files : ℕ → Result (List String)
  pub add_all : ℕ → Result (Unit {0})
  pub commit : String → ℕ → Result String
  pub remotes : ℕ → Result (List String)
  pub push : String → ℕ → Result (Unit {0})
