-- ===== src/Github/Operations.antt =====
-- The five operations of the GitHub client.
use akesis.Common.{
  ℕ, String, ◌≡◌, refl, true, false, none, some, List, [], ◌∷◌, nat_eq, string_eq, if◌then◌else◌,
  concat, decimal,
}
use akesis.Calls.{Outcome, returned, raised, ◌>>=◌, finish}
use akesis.Calls.Post.{
  Ensures, finish-Ensures, throw-Ensures, choose-Ensures, bind-finish, bind-throw,
}
use akesis.Http.{JsonValue, json_string, dict_value, Method, Response}
use akesis.Github.{
  api_error, GithubError, github_error, other_error, GithubApi, GithubClient, ArchiveEntry,
  get_headers, get_request, repo_url, archive_text, first_item, settle, logs_of, unpack,
  get_workflow_run, get_workflow_run_logs, get_commit, create_pull_request, find_pull_request,
}
use akesis.Github.Answers.{Exchanges, IsPlain, exchange-then}

-- the value of a JSON text, through a function
abbrev pub json_read : {A : Type 0} → GithubApi → (JsonValue → A) → Response → Outcome GithubError A
json_read api f res = elim (api.read_json res.text) [
  | returned v ↦ returned (f v)
  | raised m ↦ raised (other_error m)
]

-- the text of a response, or of the archive that it is
abbrev pub logs_read : GithubApi → ℕ → Response → Outcome GithubError String
logs_read api run_id res =
    if api.is_archive res.text
    then elim (api.unzip res.text) [
      | returned entries ↦ returned (archive_text entries)
      | raised m ↦ raised (
          github_error api_error
            (concat ("Corrupted logs archive for run " ∷ decimal run_id ∷ ": " ∷ m ∷ [])) none)
    ]
    else returned res.text

module _ (api : GithubApi) (self : GithubClient) where
  settle-reads :
      (answer : Outcome String JsonValue)
      → Ensures
          (λ o ws.
            (ws ≡ [])
            × ((o ≡ elim answer [ returned v ↦ returned v | raised m ↦ raised (other_error m) ])
                × IsPlain o))
          (settle answer)
  settle-reads (returned v) = finish-Ensures _ v (refl, (refl, tt))
  settle-reads (raised m) = throw-Ensures _ (other_error m) (refl, (refl, tt))

  first-reads :
      (answer : Outcome String JsonValue)
      → Ensures
          (λ o ws.
            (ws ≡ [])
            × ((o ≡ elim answer [
              | returned v ↦ returned (first_item api self v)
              | raised m ↦ raised (other_error m)
            ])
                × IsPlain o))
          (settle answer >>= λ v. finish (first_item api self v))
  first-reads (returned v) =
      bind-finish _ _ v (finish-Ensures _ (first_item api self v) (refl, (refl, tt)))
  first-reads (raised m) = bind-throw _ _ (other_error m) (refl, (refl, tt))

  unpack-reads :
      (run_id : ℕ) (answer : Outcome String (List ArchiveEntry))
      → Ensures
          (λ o ws.
            (ws ≡ [])
            × ((o ≡ elim answer [
              | returned entries ↦ returned (archive_text entries)
              | raised m ↦ raised (
                  github_error api_error
                    (concat ("Corrupted logs archive for run " ∷ decimal run_id ∷ ": " ∷ m ∷ []))
                    none)
            ])
                × IsPlain o))
          (unpack api self run_id answer)
  unpack-reads run_id (returned entries) =
      finish-Ensures _ (archive_text entries) (refl, (refl, tt))
  unpack-reads run_id (raised m) = throw-Ensures _ _ (refl, (refl, tt))

  logs-reads :
      (run_id : ℕ) (res : Response)
      → Ensures
          (λ o ws. (ws ≡ []) × ((o ≡ logs_read api run_id res) × IsPlain o))
          (logs_of api self run_id res)
  logs-reads run_id res =
      choose-Ensures _ (api.is_archive res.text) _ _
        (λ e. rw e (unpack-reads run_id (api.unzip res.text)))
        (λ e. rw e (finish-Ensures _ res.text (refl, (refl, tt))))

  abbrev pub pull_payload : String → String → String → String → JsonValue
  pull_payload title body head base = dict_value (
      ("title", json_string title)
      ∷ ("body", json_string body)
      ∷ ("head", json_string head)
      ∷ ("base", json_string base)
      ∷ [])

  -- Each operation sends its request once, and returns what is read of a response of success, or
  -- raises the error of the response.
  abbrev pub Operates : String → String → Type 0
  Operates owner repo =
      ((run_id : ℕ)
        → Ensures
            (Exchanges
              (get_request api self
                (repo_url api self owner repo (concat ("actions/runs/" ∷ decimal run_id ∷ []))) [])
              (json_read api (λ v. v))
              (concat ("Failed to get workflow run " ∷ decimal run_id ∷ [])))
            (get_workflow_run api self owner repo run_id))
      × ((run_id : ℕ)
          → Ensures
              (Exchanges
                (record {
                  method = Method.http_get;
                  url =
                      repo_url api self owner repo
                        (concat ("actions/runs/" ∷ decimal run_id ∷ "/logs" ∷ []));
                  params = [];
                  headers = get_headers self;
                  follow_redirects = true;
                  payload = none;
                })
                (logs_read api run_id)
                (concat ("Failed to get logs for run " ∷ decimal run_id ∷ [])))
              (get_workflow_run_logs api self owner repo run_id))
      × ((commit_sha : String)
          → Ensures
              (Exchanges
                (get_request api self
                  (repo_url api self owner repo (concat ("commits/" ∷ commit_sha ∷ []))) [])
                (json_read api (λ v. v)) (concat ("Failed to get commit " ∷ commit_sha ∷ [])))
              (get_commit api self owner repo commit_sha))
      × ((title body head base : String)
          → Ensures
              (Exchanges
                (record {
                  method = Method.http_post;
                  url = repo_url api self owner repo "pulls";
                  params = [];
                  headers = get_headers self;
                  follow_redirects = false;
                  payload = some (pull_payload title body head base);
                })
                (json_read api (λ v. v))
                (concat ("Failed to create pull request for " ∷ owner ∷ "/" ∷ repo ∷ [])))
              (create_pull_request api self owner repo title body head base))
      × ((head base : String)
          → Ensures
              (Exchanges
                (get_request api self (repo_url api self owner repo "pulls") (
                  ("state", "open")
                  ∷ ("head", concat (owner ∷ ":" ∷ head ∷ []))
                  ∷ ("base", base)
                  ∷ []))
                (json_read api (first_item api self))
                (concat ("Failed to search pull requests for " ∷ owner ∷ "/" ∷ repo ∷ [])))
              (find_pull_request api self owner repo head base))

  -- Whatever GitHub answers, each of the five operations sends its one request, once, and returns
  -- or raises what is read of a response of success, raises the exception of the connection, or
  -- raises an error whose class is that of the response's status (and, for 403, of its text),
  -- whose status is the response's, and whose message begins with the operation's; `{}`, `""` and
  -- `None` never stand for an error.
  pub github-Operates : (owner repo : String) → Operates owner repo
  unfolding get_workflow_run get_workflow_run_logs get_commit create_pull_request find_pull_request
  github-Operates owner repo =
      let json = λ (res : Response). settle-reads (api.read_json res.text) in
      (
        (λ run_id. exchange-then (json_read api (λ v. v)) _ json api self _ _ _),
        (λ run_id. exchange-then (logs_read api run_id) _ (logs-reads run_id) api self _ _ _),
        (λ commit_sha. exchange-then (json_read api (λ v. v)) _ json api self _ _ _),
        (λ title body head base. exchange-then (json_read api (λ v. v)) _ json api self _ _ _),
        (λ head base.
            exchange-then (json_read api (first_item api self)) _
              (λ res. first-reads (api.read_json res.text)) api self _ _ _),
      )
