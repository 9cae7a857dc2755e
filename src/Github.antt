-- ===== src/Github.antt =====
-- class GitHubClient of src/packages/sdk/github_client.py. GitHub's answers, the reading of JSON
-- and of ZIP archives are parameters.
pub mod Answers
pub mod Operations
use akesis.Config.{Settings}
use akesis.Common.{
  ℕ, zero, suc, ◌+◌, ◌-◌, ◌*◌, ◌/◌, ◌%◌, ◌≤◌, ◌<◌, min, max, String, ◌≡◌, refl, sym, ap, ◌∙◌, ◌≢◌,
  ◌↔◌, ◌⊎◌, inl, inr, Bool, true, false, not, ◌&&◌, ◌||◌, Option, none, some, List, [], ◌∷◌, ◌++◌,
  map, arith, eq_iff, eq_refl, Eq, ◌==◌, nat_eq, string_eq, if◌then◌else◌, ltb, leb, Bool-cases,
  Option-cases, and-false, codes, keep, lower, starts, has_part, last_is, same_codes, is_some,
  or_else, length, is_empty, any, all, select, update, length-append, All, contains, dedupe, concat,
  join, prefix, is_blank, text_or, decimal, within, is_space, is_break, is_digit, onto, lines_from,
  split_lines, strip_left, strip_right, strip, drop, starts_with, replace_text, and_left, and_right,
  and_intro, or_left, or_right, or_intro, refute, ends, after_first, until, replace_char,
  read_digits, skip_space, list_append_nil, list_append_assoc, map-snoc, length-map, take, skip,
  take-all, take-more, skip-more, map-append, All-append, codes-append, read_digits-decimal,
  starts_digitless, StartsDigit, decimal-StartsDigit, IsLine, split_lines-join, drop-append,
}
use akesis.Calls.{
  Outcome, returned, raised, Program, finish, throw, answered, choose, rescue, ◌>>=◌, ◌>>◌,
}
use akesis.Http.{
  JsonValue, json_array, json_string, item, no_items, dict_value, Method, Request, Response,
  Exchange, responded, unreachable, is_success,
}

-- The classes of GitHubAPIError.
pub data GithubErrorClass : Type 0 where
  api_error auth_error permission_error rate_limit_error resource_not_found conflict_error :
      GithubErrorClass

-- An error of the module, `httpx.HTTPStatusError` of a response, or any other exception.
pub data GithubError : Type 0 where
  github_error : GithubErrorClass → String → Option ℕ → GithubError
  status_error : Response → GithubError
  other_error : String → GithubError

pub record ArchiveEntry : Type 0 where
  pub name : String
  pub is_dir : Bool
  pub text : String

-- A request of the API, and its answer.
pub record GithubCall : Type 0 where
  pub request : Request
  pub answer : Exchange

pub record GithubApi : Type 0 where
  pub send : Request → ℕ → Exchange
  -- `res.json()`
  pub read_json : String → Outcome String JsonValue
  -- whether the content begins as a ZIP archive
  pub is_archive : String → Bool
  -- its entries, or the message of `BadZipFile`
  pub unzip : String → Outcome String (List ArchiveEntry)

pub record GithubClient : Type 0 where
  pub token : String
  pub base_url : String

abbrev pub Steps : Type 0 → Type 0
Steps A = Program GithubCall GithubError A

-- `__init__`
abbrev pub github_client : Settings → Option String → Option String → GithubClient
github_client settings token base_url = record {
  token = or_else token settings.github_token;
  base_url = strip_right (λ c. c == b'/') (text_or base_url settings.github_api_url);
}

-- `_get_headers`
abbrev pub get_headers : GithubClient → List (String × String)
get_headers self =
    ("Accept", "application/vnd.github+json")
    ∷ ("X-GitHub-Api-Version", "2022-11-28")
    ∷ (if is_blank self.token
        then []
        else ("Authorization", concat ("Bearer " ∷ self.token ∷ [])) ∷ [])

-- the error that `_handle_error` raises
unfoldable pub error_of : Response → String → GithubError
error_of res context_msg =
    let status = res.status_code in
    if status == 401
    then github_error auth_error (concat (context_msg ∷ ": Unauthorized (HTTP 401)" ∷ []))
        (some 401)
    else if status == 429
    then github_error rate_limit_error
        (concat (context_msg ∷ ": Rate limit exceeded (HTTP 429)" ∷ [])) (some 429)
    else if status == 403
    then if has_part (map lower (codes res.text)) (codes "permission")
      then github_error permission_error
          (concat (context_msg ∷ ": Permission denied (HTTP 403)" ∷ [])) (some 403)
      else github_error rate_limit_error
          (concat (context_msg ∷ ": Rate limit exceeded or forbidden (HTTP 403)" ∷ [])) (some 403)
    else if status == 404
    then github_error resource_not_found
        (concat (context_msg ∷ ": Resource not found (HTTP 404)" ∷ [])) (some 404)
    else if status == 409 || status == 422
    then github_error conflict_error
        (concat
          (context_msg ∷ ": Conflict or unprocessable entity (HTTP " ∷ decimal status ∷ ")" ∷ []))
        (some status)
    else github_error api_error (concat (context_msg ∷ ": HTTP " ∷ decimal status ∷ []))
        (some status)

abbrev pub handle_error : Response → String → Steps (Unit {0})
handle_error res context_msg = throw (error_of res context_msg)

-- `except httpx.HTTPStatusError as err: self._handle_error(err, ...); return fallback`
abbrev pub on_status_error : {A : Type 0} → String → A → GithubError → Steps A
on_status_error context_msg fallback (status_error res) = do
  handle_error res context_msg
  finish fallback
on_status_error context_msg fallback e = throw e

-- `res.raise_for_status()`
abbrev pub raise_for_status : Exchange → Steps Response
raise_for_status (responded res) =
    choose (is_success res.status_code) (finish res) (throw (status_error res))
raise_for_status (unreachable m) = throw (other_error m)

-- a value, or the message of an exception that is none of the module's
abbrev pub settle : {A : Type 0} → Outcome String A → Steps A
settle (returned a) = finish a
settle (raised m) = throw (other_error m)

-- texts by their code points
abbrev pub precedes : List ℕ → List ℕ → Bool
precedes [] t = true
precedes (c ∷ s) [] = false
precedes (c ∷ s) (d ∷ t) = ltb c d || c == d && precedes s t

abbrev pub insert_entry : ArchiveEntry → List ArchiveEntry → List ArchiveEntry
insert_entry e [] = e ∷ []
insert_entry e (f ∷ fs) =
    let rest = insert_entry e fs in
    if precedes (codes e.name) (codes f.name) then e ∷ f ∷ fs else f ∷ rest

-- the entries in the order of `sorted(z.namelist())`
abbrev pub sort_entries : List ArchiveEntry → List ArchiveEntry
sort_entries [] = []
sort_entries (e ∷ es) = insert_entry e (sort_entries es)

abbrev pub is_log : ArchiveEntry → Bool
is_log e =
    not (ends (codes e.name) (codes "/")) && (ends (codes e.name) (codes ".txt") && not e.is_dir)

abbrev pub log_part : ArchiveEntry → String
log_part e = concat ("=== " ∷ e.name ∷ " ===\n" ∷ e.text ∷ [])

unfoldable pub archive_text : List ArchiveEntry → String
archive_text es = join "\n\n" (map log_part (select is_log (sort_entries es)))

module _ (api : GithubApi) (self : GithubClient) where
  abbrev pub exchange : Request → Steps Exchange
  exchange request =
      answered (λ answer. record { request = request; answer = answer }) (api.send request)

  abbrev pub get_request : String → List (String × String) → Request
  get_request url params = record {
    method = Method.http_get;
    url = url;
    params = params;
    headers = get_headers self;
    follow_redirects = false;
    payload = none;
  }

  abbrev pub repo_url : String → String → String → String
  repo_url owner repo rest =
      concat (self.base_url ∷ "/repos/" ∷ owner ∷ "/" ∷ repo ∷ "/" ∷ rest ∷ [])

  -- the `try` block of the operations that read JSON
  abbrev pub fetch_json : Request → Steps JsonValue
  fetch_json request = do
    answer ← exchange request
    res ← raise_for_status answer
    settle (api.read_json res.text)

  abbrev pub no_dict : JsonValue
  no_dict = dict_value []

  unfoldable pub get_workflow_run : String → String → ℕ → Steps JsonValue
  get_workflow_run owner repo run_id =
      rescue
        (fetch_json
          (get_request (repo_url owner repo (concat ("actions/runs/" ∷ decimal run_id ∷ []))) []))
        (on_status_error (concat ("Failed to get workflow run " ∷ decimal run_id ∷ [])) no_dict)

  -- the text of the logs, from an archive or as it is
  abbrev pub unpack : ℕ → Outcome String (List ArchiveEntry) → Steps String
  unpack run_id (returned entries) = finish (archive_text entries)
  unpack run_id (raised m) = throw (
      github_error api_error
        (concat ("Corrupted logs archive for run " ∷ decimal run_id ∷ ": " ∷ m ∷ [])) none)

  abbrev pub logs_of : ℕ → Response → Steps String
  logs_of run_id res =
      choose (api.is_archive res.text) (unpack run_id (api.unzip res.text)) (finish res.text)

  -- the only request whose redirects are followed
  abbrev pub logs_request : String → String → ℕ → Request
  logs_request owner repo run_id =
      record (get_request
        (repo_url owner repo (concat ("actions/runs/" ∷ decimal run_id ∷ "/logs" ∷ []))) []) {
          follow_redirects = true;
        }

  unfoldable pub get_workflow_run_logs : String → String → ℕ → Steps String
  get_workflow_run_logs owner repo run_id =
      rescue
        (do
          answer ← exchange (logs_request owner repo run_id)
          res ← raise_for_status answer
          logs_of run_id res)
        (on_status_error (concat ("Failed to get logs for run " ∷ decimal run_id ∷ [])) "")

  unfoldable pub get_commit : String → String → String → Steps JsonValue
  get_commit owner repo commit_sha =
      rescue
        (fetch_json (get_request (repo_url owner repo (concat ("commits/" ∷ commit_sha ∷ []))) []))
        (on_status_error (concat ("Failed to get commit " ∷ commit_sha ∷ [])) no_dict)

  unfoldable pub create_pull_request :
      String → String → String → String → String → String → Steps JsonValue
  create_pull_request owner repo title body head base =
      rescue
        (fetch_json (record {
          method = Method.http_post;
          url = repo_url owner repo "pulls";
          params = [];
          headers = get_headers self;
          follow_redirects = false;
          payload = some (
              dict_value (
                ("title", json_string title)
                ∷ ("body", json_string body)
                ∷ ("head", json_string head)
                ∷ ("base", json_string base)
                ∷ []));
        }))
        (on_status_error (concat ("Failed to create pull request for " ∷ owner ∷ "/" ∷ repo ∷ []))
          no_dict)

  -- `data[0] if isinstance(data, list) and len(data) > 0 else None`
  abbrev pub first_item : JsonValue → Option JsonValue
  first_item (json_array (item x xs)) = some x
  first_item v = none

  unfoldable pub find_pull_request : String → String → String → String → Steps (Option JsonValue)
  find_pull_request owner repo head_branch base_branch =
      rescue
        (do
          answer ← exchange (
              get_request (repo_url owner repo "pulls") (
                ("state", "open")
                ∷ ("head", concat (owner ∷ ":" ∷ head_branch ∷ []))
                ∷ ("base", base_branch)
                ∷ []))
          res ← raise_for_status answer
          found ← settle (api.read_json res.text)
          finish (first_item found))
        (on_status_error (concat ("Failed to search pull requests for " ∷ owner ∷ "/" ∷ repo ∷ []))
          none)
