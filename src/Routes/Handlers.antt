-- ===== src/Routes/Handlers.antt =====
-- `handle_github_webhook` and `handle_slack_interaction` of src/apps/api/routes.py, and
-- `verify_read_token` of src/packages/shared/security.py.
use akesis.Common.{
  String, Bool, not, ◌&&◌, ◌||◌, Option, none, some, List, [], ◌∷◌, ◌==◌, nat_eq, string_eq,
  if◌then◌else◌, or_else, concat, is_blank, text_or, strip,
}
use akesis.Domain.{conclusion_value, ApprovalRecord, ApprovalStatus, approval_eq}
use akesis.Config.{Settings, Python}
use akesis.Runtime.{
  M, ErrorKind, Error, Effect, ◌>>=◌, ◌>>◌, pure, raise, fail, raise_if, catch, lift, choose, now,
  emit,
}
use akesis.Approval.{SlackClient, record_decision}
use akesis.Routes.{
  Web, SlackAction, SlackPayload, WorkflowRun, Repository, WebhookPayload, IngestionResponse,
  InteractionResponse, verify_github_signature, verify_slack_signature, event_of, ignored, ingest,
  is_failure,
}

unfoldable pub verify_read_token : Settings → Python → Option String → M (Unit {0})
verify_read_token settings python token = choose (is_blank settings.read_api_token) (pure tt) (
    raise_if
      (is_blank (or_else token "")
        || not (strip (or_else token "") == strip settings.read_api_token))
      (ErrorKind.http 401) "Invalid or missing read API token")

-- `a or b or c`
pub first_text : Option String → Option String → String → String
first_text a b c = text_or a (text_or b c)

module _ (web : Web) (settings : Settings) where
  -- steps 4 and 5
  unfoldable pub handle_run :
      WebhookPayload → Option WorkflowRun → Option Repository → M IngestionResponse
  unfolding conclusion_value
  handle_run payload (some run) (some repo) =
      choose (is_failure (event_of web payload run repo).conclusion)
        (ingest web (event_of web payload run repo))
        (pure (
          ignored (
            concat (
              "Workflow run conclusion '"
              ∷ conclusion_value (event_of web payload run repo).conclusion
              ∷ "' is not a failure"
              ∷ []))))
  handle_run payload _ _ =
      raise (ErrorKind.http 422) "Payload missing required 'workflow_run' or 'repository' objects"

  unfoldable pub handle_github_webhook :
      String → Option String → Option String → M IngestionResponse
  unfolding handle_run verify_github_signature ingest
  handle_github_webhook body x_github_event x_hub_signature_256 = do
    raise_if
        (not (verify_github_signature web body x_hub_signature_256 settings.github_webhook_secret))
        (ErrorKind.http 401) "Invalid or missing webhook signature (X-Hub-Signature-256)"
    choose (or_else x_github_event "" == "workflow_run")
        (do
          payload ←
              catch (lift (web.parse_webhook body))
                (λ _. raise (ErrorKind.http 400) "Malformed JSON payload")
          handle_run payload payload.workflow_run payload.repository)
        (pure (
          ignored
            (concat ("Event '" ∷ or_else x_github_event "None" ∷ "' is not supported in V1" ∷ []))))

-- step 2, and the answer
unfoldable pub respond : ApprovalRecord × Bool → M InteractionResponse
respond (r, is_duplicate) = do
  choose (not is_duplicate && r.status == ApprovalStatus.approved)
      (emit (Effect.resume_scheduled r.approval_id)) (pure tt)
  pure (record { approval_id = r.approval_id; decision = r.status; is_duplicate = is_duplicate })

-- the `except` clauses
unfoldable pub to_http : Error → M InteractionResponse
to_http e = elim e.kind [
  | ErrorKind.approval_not_found ↦ raise (ErrorKind.http 404) e.message
  | ErrorKind.illegal_transition ↦ raise (ErrorKind.http 409) e.message
  | _ ↦ fail e
]

module _ (slack : SlackClient) where
  -- the `try` block: the decision is recorded, and the pipeline resumed if it is an approval
  unfoldable pub decide_and_respond :
      String → String → String → Option String → M InteractionResponse
  unfolding respond to_http
  decide_and_respond approval_id decision user_name response_url =
      catch (record_decision slack approval_id decision user_name none response_url >>= respond)
        to_http

  unfoldable pub handle_action : SlackPayload → List SlackAction → M InteractionResponse
  unfolding first_text decide_and_respond
  handle_action payload [] = raise (ErrorKind.http 400) "No actions found in payload"
  handle_action payload (action ∷ rest) = do
    let approval_id = or_else action.value ""
    let user_name =
        first_text payload.user.username payload.user.name (or_else payload.user.id "unknown_user")
    raise_if (is_blank approval_id) (ErrorKind.http 400) "Missing approval ID in action value"
    decide_and_respond approval_id
        (if or_else action.action_id "" == "approve_fix" then "approve" else "reject") user_name
        payload.response_url

module _ (web : Web) (settings : Settings) (slack : SlackClient) where
  unfoldable pub handle_slack_interaction :
      String → Option String → Option String → M InteractionResponse
  unfolding handle_action verify_slack_signature
  handle_slack_interaction raw_body timestamp signature = do
    t ← now
    raise_if
        (not (
          verify_slack_signature web raw_body timestamp signature settings.slack_signing_secret
            (web.seconds t)))
        (ErrorKind.http 401) "Invalid or expired Slack signature"
    payload ← catch (lift (web.parse_interaction raw_body)) (λ e.
        raise (ErrorKind.http 400)
          (concat ("Malformed Slack interaction payload: " ∷ e.message ∷ [])))
    handle_action slack payload payload.actions
