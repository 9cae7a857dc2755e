-- ===== src/Checkout.antt =====
-- class GitRepositoryCheckoutManager of src/packages/sdk/repo_checkout.py. What git and the file
-- system answer is a parameter, indexed by the calls made before; paths are joined by `/`.
mod Sanitize
pub mod Redaction
pub mod Names
pub mod Exact
use akesis.Common.{
  ℕ, String, Bool, true, false, not, ◌&&◌, ◌||◌, Option, none, some, List, [], ◌∷◌, map, ◌==◌,
  nat_eq, string_eq, if◌then◌else◌, leb, codes, lower, starts, length, all, concat, is_blank,
  text_or, within, is_digit,
}
unfoldable pub use Sanitize.*
use akesis.Config.{Settings}
use akesis.Calls.{
  Outcome, returned, raised, Program, finish, throw, call, ask, answered, choose, rescue, ◌>>=◌,
  ◌>>◌,
}
use akesis.Runtime.{Error, ErrorKind, Result, ok, err}
use akesis.Validation.{RepoCheckout}

-- The exception classes of the module, of GitPython, and the rest, each with its message.
pub data Exception : Type 0 where
  invalid_commit repository_checkout git_command bad_name value_error unexpected :
      String → Exception

abbrev pub message_of : Exception → String
message_of (invalid_commit m) = m
message_of (repository_checkout m) = m
message_of (git_command m) = m
message_of (bad_name m) = m
message_of (value_error m) = m
message_of (unexpected m) = m

pub data GitEvent : Type 0 where
  directory_made : String → GitEvent
  -- a URL and a directory
  cloned : String → String → GitEvent
  -- into a directory, from a URL, one commit or all references
  fetched : String → String → Option String → GitEvent
  -- in a directory, a commit
  checked_out : String → String → GitEvent
  head_read : String → Outcome Exception String → GitEvent
  detached_read : String → Outcome Exception Bool → GitEvent

-- The repository object is named by its directory.
pub record Git : Type 0 where
  pub exists : String → ℕ → Bool
  pub makedirs : String → ℕ → Outcome Exception (Unit {0})
  pub clone_from : String → String → ℕ → Outcome Exception (Unit {0})
  pub open_repo : String → ℕ → Outcome Exception (Unit {0})
  pub commit : String → String → ℕ → Outcome Exception (Unit {0})
  pub fetch : String → String → Option String → ℕ → Outcome Exception (Unit {0})
  pub checkout : String → String → ℕ → Outcome Exception (Unit {0})
  pub head_hexsha : String → ℕ → Outcome Exception String
  pub is_detached : String → ℕ → Outcome Exception Bool
  pub repr : String → String

abbrev pub is_letter : ℕ → Bool
is_letter c = within b'a' b'z' c || within b'A' b'Z' c

-- `[a-zA-Z0-9_.-]`
abbrev pub is_name_char : ℕ → Bool
is_name_char c = is_letter c || (is_digit c || (c == b'_' || (c == b'.' || c == b'-')))

-- `[0-9a-fA-F]`
abbrev pub is_hex : ℕ → Bool
is_hex c = is_digit c || (within b'a' b'f' c || within b'A' b'F' c)

-- `$` stands at the end, or in front of a line feed at the end
abbrev pub before_newline : List ℕ → List ℕ
before_newline [] = []
before_newline (c ∷ []) = if c == 10 then [] else c ∷ []
before_newline (c ∷ d ∷ s) = c ∷ before_newline (d ∷ s)

-- `not owner or not REPO_IDENTIFIER_PATTERN.match(owner)`, negated
unfoldable pub is_identifier : String → Bool
is_identifier s =
    let name = before_newline (codes s) in all is_name_char name && leb 1 (length name)

-- `COMMIT_SHA_PATTERN`
unfoldable pub is_commit_sha : String → Bool
is_commit_sha s =
    let name = before_newline (codes s) in
    all is_hex name && (leb 7 (length name) && leb (length name) 40)

abbrev pub Steps : Type 0 → Type 0
Steps A = Program GitEvent Exception A

abbrev pub settle : {A : Type 0} → Outcome Exception A → Steps A
settle (returned a) = finish a
settle (raised e) = throw e

abbrev pub repo_dir : String → String → String → String
repo_dir base_dir owner name = concat (base_dir ∷ "/" ∷ owner ∷ "_" ∷ name ∷ [])

abbrev pub remote_url : Settings → String → String → Option String → String
remote_url settings owner name clone_url = text_or clone_url (
    concat (
      "https://"
      ∷ (if is_blank settings.github_token then "" else concat (settings.github_token ∷ "@" ∷ []))
      ∷ "github.com/"
      ∷ owner
      ∷ "/"
      ∷ name
      ∷ ".git"
      ∷ []))

abbrev pub matches : String → String → Bool
matches head sha = starts (map lower (codes head)) (map lower (codes sha))

module _ (settings : Settings) (git : Git) (base_dir : String) where
  abbrev pub not_known : Exception → Steps Bool
  not_known (bad_name m) = finish false
  not_known (git_command m) = finish false
  not_known (value_error m) = finish false
  not_known e = throw e

  -- `_has_commit`
  unfoldable pub has_commit : String → String → Steps Bool
  has_commit dir sha = rescue (do ask (git.commit dir sha); finish true) not_known

  -- clones where the directory is missing, else opens it
  unfoldable pub open_or_clone : String → String → Steps (Unit {0})
  open_or_clone dir url = do
    exists ← ask (λ n. returned (git.exists dir n))
    choose exists (ask (git.open_repo dir)) (do
      call (directory_made base_dir) (git.makedirs base_dir)
      call (cloned url dir) (git.clone_from url dir))

  abbrev pub fetch_all : String → String → Exception → Steps (Unit {0})
  fetch_all dir url (git_command m) = call (fetched dir url none) (git.fetch dir url none)
  fetch_all dir url e = throw e

  unfoldable pub fetch_missing : String → String → String → Bool → Steps (Unit {0})
  fetch_missing dir url sha present = choose present (finish tt) (
      rescue (call (fetched dir url (some sha)) (git.fetch dir url (some sha))) (fetch_all dir url))

  -- HEAD is the commit that was asked for, and detached
  abbrev pub check_detached : String → String → Bool → Steps String
  check_detached dir sha detached = choose detached (finish dir) (
      throw (
        repository_checkout
          (concat ("Repository HEAD is not detached after checking out " ∷ sha ∷ []))))

  abbrev pub check_head : String → String → String → Steps String
  check_head dir sha head =
      choose (matches head sha)
        (do
          answer ← answered (detached_read dir) (git.is_detached dir)
          detached ← settle answer
          check_detached dir sha detached)
        (throw (
          invalid_commit
            (concat ("Resolved HEAD " ∷ head ∷ " does not match requested commit " ∷ sha ∷ []))))

  unfoldable pub checkout_exact : String → String → Steps String
  checkout_exact dir sha = do
    call (checked_out dir sha) (git.checkout dir sha)
    answer ← answered (head_read dir) (git.head_hexsha dir)
    head ← settle answer
    check_head dir sha head

  -- the `try` block
  unfoldable pub obtain : String → String → String → Option String → Steps String
  obtain owner name sha clone_url = do
    let dir = repo_dir base_dir owner name
    let url = remote_url settings owner name clone_url
    open_or_clone dir url
    present ← has_commit dir sha
    fetch_missing dir url sha present
    found ← has_commit dir sha
    choose found (finish tt) (
        throw (
          invalid_commit (
            concat (
              "Commit " ∷ sha ∷ " does not exist in repository " ∷ owner ∷ "/" ∷ name ∷ "." ∷ []))))
    checkout_exact dir sha

  -- the `except` clauses
  abbrev pub translate : String → String → String → Exception → Steps String
  translate owner name sha (invalid_commit m) = throw (invalid_commit m)
  translate owner name sha (git_command m) = throw (
      repository_checkout (
        concat (
          "Failed to checkout commit "
          ∷ sha
          ∷ " in "
          ∷ owner
          ∷ "/"
          ∷ name
          ∷ ": "
          ∷ sanitize_git_message settings m
          ∷ [])))
  translate owner name sha e = throw (
      repository_checkout (
        concat (
          "Unexpected repository checkout error: "
          ∷ sanitize_git_message settings (message_of e)
          ∷ [])))

  unfoldable pub checkout_commit : String → String → String → Option String → Steps String
  checkout_commit owner name sha clone_url =
      choose (is_identifier owner)
        (choose (is_identifier name)
          (choose (is_commit_sha sha)
            (rescue (obtain owner name sha clone_url) (translate owner name sha))
            (throw (
              invalid_commit (
                concat (
                  "Invalid commit SHA format: "
                  ∷ git.repr sha
                  ∷ ". Must be 7-40 hexadecimal characters."
                  ∷ [])))))
          (throw (repository_checkout (concat ("Invalid repository name: " ∷ git.repr name ∷ [])))))
        (throw (repository_checkout (concat ("Invalid repository owner: " ∷ git.repr owner ∷ []))))

  -- both classes are RepositoryCheckoutError to the caller
  unfoldable pub git_checkout : RepoCheckout
  git_checkout = record {
    checkout_commit = λ owner name sha n. elim (checkout_commit owner name sha none n).outcome [
      | returned dir ↦ ok dir
      | raised e ↦ err (record { kind = ErrorKind.checkout; message = message_of e })
    ];
  }
