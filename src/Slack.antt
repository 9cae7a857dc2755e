-- ===== src/Slack.antt =====
-- class SlackClient of src/packages/sdk/slack_client.py: the cards, and how they are sent. Slack's
-- answers and the clock are parameters; the exception of a failed call is its message.
pub mod Cards
use akesis.Common.{
  ℕ, zero, suc, ◌+◌, ◌-◌, ◌*◌, ◌/◌, ◌%◌, ◌≤◌, ◌<◌, min, max, String, ◌≡◌, refl, sym, ap, ◌∙◌, ◌≢◌,
  ◌↔◌, ◌⊎◌, inl, inr, Bool, true, false, not, ◌&&◌, ◌||◌, Option, none, some, List, [], ◌∷◌, ◌++◌,
  map, arith, eq_iff, eq_refl, Eq, ◌==◌, nat_eq, string_eq, if◌then◌else◌, ltb, leb, Bool-cases,
  Option-cases, and-false, codes, keep, lower, starts, has_part, last_is, same_codes, is_some,
  or_else, length, is_empty, any, all, select, update, length-append, All, contains, dedupe, concat,
  join, prefix, is_blank, text_or, decimal, within, is_space, is_break, is_digit, onto, lines_from,
  split_lines, strip_left, strip_right, strip, drop, starts_with, replace_text, and_left, and_right,
  and_intro, or_left, or_right, or_intro, refute, ends, after_first, until, replace_char,
  read_digits, skip_space, list_append_nil, list_append_assoc, map-snoc, length-map, take, skip,
  take-all, take-more, skip-more, map-append, All-append, codes-append, read_digits-decimal,
  starts_digitless, StartsDigit, decimal-StartsDigit, IsLine, split_lines-join, drop-append,
}
use akesis.Domain.{
  ApprovalRecord, ApprovalStatus, approval_eq, approval_value, category_value, validation_value,
  FailureContext, FixProposal, ValidationResult, RiskLevel,
}
use akesis.Config.{Settings, Python}
use akesis.Runtime.{ErrorKind, Result, ok, err}
use akesis.Calls.{
  Outcome, returned, raised, Program, finish, throw, answered, ask, choose, rescue, ◌>>=◌, ◌>>◌,
}
use mathlib.Core.Option
use akesis.Http.{
  JsonValue, json_string, dict_value, list_value, Method, Request, Response, Exchange, responded,
  unreachable, is_success,
}
use akesis.Approval.{SlackMeta}
use akesis.Validation.{exit_text}

-- A request to Slack, and its answer.
pub record SlackCall : Type 0 where
  pub request : Request
  pub answer : Exchange

pub record SlackApi : Type 0 where
  pub send : Request → ℕ → Exchange
  -- `str(time.time())`
  pub time_text : ℕ → String
  -- `str` of the exception that `raise_for_status` raises for a response
  pub status_text : Response → String

-- `SlackError`
pub data SlackError : Type 0 where
  slack_error : String → SlackError

abbrev pub Steps : Type 0 → Type 0
Steps A = Program SlackCall SlackError A

-- `__init__`, of the address; the secret is only kept
abbrev pub webhook_url : Settings → Option String → String
webhook_url settings url = text_or url settings.slack_webhook_url

abbrev pub post_request : String → JsonValue → Request
post_request url payload = record {
  method = Method.http_post;
  url = url;
  params = [];
  headers = [];
  follow_redirects = false;
  payload = some payload;
}

abbrev risk_value : RiskLevel → String
risk_value RiskLevel.low = "low"
risk_value RiskLevel.medium = "medium"
risk_value RiskLevel.high = "high"

abbrev mrkdwn : List String → JsonValue
mrkdwn pieces =
    dict_value (("type", json_string "mrkdwn") ∷ ("text", json_string (concat pieces)) ∷ [])

abbrev plain : List String → JsonValue
plain pieces =
    dict_value (("type", json_string "plain_text") ∷ ("text", json_string (concat pieces)) ∷ [])

abbrev header_block : List String → JsonValue
header_block pieces = dict_value (("type", json_string "header") ∷ ("text", plain pieces) ∷ [])

abbrev section_block : List String → JsonValue
section_block pieces = dict_value (("type", json_string "section") ∷ ("text", mrkdwn pieces) ∷ [])

abbrev button : String → String → String → String → JsonValue
button label style action_id value = dict_value (
    ("type", json_string "button")
    ∷ ("text", plain (label ∷ []))
    ∷ ("style", json_string style)
    ∷ ("action_id", json_string action_id)
    ∷ ("value", json_string value)
    ∷ [])

abbrev diff_snippet : String → String
diff_snippet diff =
    if ltb 1500 (length (codes diff))
    then concat (prefix 1500 diff ∷ "\n\n[... diff truncated ...]" ∷ [])
    else diff

module _ (python : Python) where
  abbrev pub build_approval_blocks :
      ApprovalRecord → FailureContext → FixProposal → ValidationResult → List JsonValue
  build_approval_blocks approval context proposal validation =
      header_block ("🔴 AKESIS — CI REMEDIATION APPROVAL REQUEST" ∷ [])
      ∷ dict_value (
          ("type", json_string "section")
          ∷ (
            "fields",
            list_value (
                mrkdwn (
                  "*Repo:* `" ∷ context.repository_owner ∷ "/" ∷ context.repository_name ∷ "`" ∷ [])
                ∷ mrkdwn ("*Run ID:* `#" ∷ decimal context.run_id ∷ "`" ∷ [])
                ∷ mrkdwn ("*Category:* `" ∷ category_value context.signal.category ∷ "`" ∷ [])
                ∷ mrkdwn ("*Commit:* `" ∷ prefix 8 context.commit_sha ∷ "`" ∷ [])
                ∷ []),
          )
          ∷ [])
      ∷ section_block (
          "*🛡\u{fe0f} Sandbox Validation:* `"
          ∷ python.upper (validation_value validation.status)
          ∷ "` (exit code `"
          ∷ exit_text validation.exit_code
          ∷ "`)\n*Confidence:* `"
          ∷ python.format_score proposal.confidence_score
          ∷ "` | *Risk:* `"
          ∷ python.upper (risk_value proposal.risk_level)
          ∷ "`"
          ∷ [])
      ∷ section_block ("*Rationale:* " ∷ proposal.rationale ∷ [])
      ∷ section_block ("```\n" ∷ diff_snippet proposal.unified_diff ∷ "\n```" ∷ [])
      ∷ dict_value (
          ("type", json_string "actions")
          ∷ (
            "elements",
            list_value (
                button "✅ Approve & Open PR" "primary" "approve_fix" approval.approval_id
                ∷ button "❌ Reject Fix" "danger" "reject_fix" approval.approval_id
                ∷ []),
          )
          ∷ [])
      ∷ []

  abbrev pub is_approved : ApprovalRecord → Bool
  is_approved approval = approval.status == ApprovalStatus.approved

  -- the blocks of `update_approval_card`
  abbrev pub build_decision_blocks : ApprovalRecord → List JsonValue
  build_decision_blocks approval =
      header_block (
        (if is_approved approval then "🟢" else "🔴")
        ∷ " AKESIS — "
        ∷ (if is_approved approval then "PROPOSAL APPROVED" else "PROPOSAL REJECTED")
        ∷ [])
      ∷ section_block (
          "*Status:* `"
          ∷ python.upper (approval_value approval.status)
          ∷ "`\n*Decided by:* `"
          ∷ text_or approval.decided_by "reviewer"
          ∷ "` at `"
          ∷ or_else (Option.map python.isoformat approval.decided_at) "just now"
          ∷ "`\n*Approval ID:* `"
          ∷ approval.approval_id
          ∷ "`"
          ∷ [])
      ∷ (if is_blank (or_else approval.decision_reason "")
          then []
          else section_block ("*Notes:* " ∷ or_else approval.decision_reason "" ∷ []) ∷ [])

  module _ (api : SlackApi) where
    -- `client.post(url, json=payload)`
    abbrev pub post : String → JsonValue → Steps Exchange
    post url payload =
        answered (λ answer. record { request = post_request url payload; answer = answer })
          (api.send (post_request url payload))

    -- `res.raise_for_status()`, and the `except` clause where a card is posted
    abbrev pub card_outcome : Exchange → Steps SlackMeta
    card_outcome (unreachable m) =
        throw (slack_error (concat ("Failed to post card to Slack: " ∷ m ∷ [])))
    card_outcome (responded res) =
        choose (is_success res.status_code)
          (do
            t ← ask (λ n. returned (api.time_text n))
            finish (record { channel_id = some "webhook"; message_ts = some t }))
          (throw
            (slack_error (concat ("Failed to post card to Slack: " ∷ api.status_text res ∷ []))))

    unfoldable pub post_approval_card :
        String → ApprovalRecord → FailureContext → FixProposal → ValidationResult → Steps SlackMeta
    post_approval_card url approval context proposal validation =
        choose (is_blank url)
          (do
            t ← ask (λ n. returned (api.time_text n))
            finish (record { channel_id = some "simulated"; message_ts = some t }))
          (do
            answer ← post url (
                dict_value (
                  (
                    "blocks",
                    list_value (build_approval_blocks approval context proposal validation),
                  )
                  ∷ []))
            card_outcome answer)

    -- where a card is updated, no exception leaves
    abbrev pub update_outcome : Exchange → Steps Bool
    update_outcome (unreachable m) = finish false
    update_outcome (responded res) = finish (is_success res.status_code)

    unfoldable pub update_approval_card : String → ApprovalRecord → Steps Bool
    update_approval_card response_url approval = choose (is_blank response_url) (finish false) (do
      answer ← post response_url (
          dict_value (
            ("replace_original", json_string "true")
            ∷ ("blocks", list_value (build_decision_blocks approval))
            ∷ []))
      update_outcome answer)
