-- ===== src/Approval.antt =====
-- class ApprovalService of src/packages/shared/approval_service.py. `or settings...` of the
-- constructor is taken with no argument given.
pub mod Eligibility
pub mod Lifecycle
pub mod Race
pub mod Cards
use akesis.Common.{
  ℕ, zero, suc, ◌+◌, ◌-◌, ◌*◌, ◌/◌, ◌%◌, ◌≤◌, ◌<◌, min, max, String, ◌≡◌, refl, sym, ap, ◌∙◌, ◌≢◌,
  ◌↔◌, ◌⊎◌, inl, inr, Bool, true, false, not, ◌&&◌, ◌||◌, Option, none, some, List, [], ◌∷◌, ◌++◌,
  map, arith, eq_iff, eq_refl, Eq, ◌==◌, nat_eq, string_eq, if◌then◌else◌, ltb, leb, Bool-cases,
  Option-cases, is_some, or_else, length, is_empty, any, all, select, update, length-append, All,
  contains, dedupe, concat, join, prefix, is_blank, decimal,
}
use akesis.Domain.{
  Datetime, ApprovalRecord, ApprovalStatus, approval_eq, approval_value, FailureContext,
  FixProposal, ValidationResult, is_proposed, is_passed, is_zero_exit, validation_value,
}
use akesis.Config.{Settings, Python}
use akesis.Runtime.{
  World, M, Result, ErrorKind, Error, Effect, ◌>>=◌, ◌>>◌, pure, raise, raise_if, catch, now, emit,
  external, choose,
}
use akesis.Database.Approvals.{
  create_approval, get_approval, record_decision as repo_record_decision, expire_approval,
  is_pending,
}

-- `post_approval_card` answers the channel and the timestamp of the message.
pub record SlackMeta : Type 0 where
  pub channel_id : Option String
  pub message_ts : Option String

-- class SlackClientProtocol of src/packages/sdk/slack_client.py
pub record SlackClient : Type 0 where
  pub post_approval_card :
      ApprovalRecord → FailureContext → FixProposal → ValidationResult → ℕ → Result SlackMeta
  pub update_approval_card : String → ApprovalRecord → ℕ → Result Bool

-- `timedelta(hours=h)`
abbrev pub hours : ℕ → Datetime
hours h = h * 3_600_000_000

abbrev pub approval_id_of : FailureContext → FixProposal → String
approval_id_of context proposal =
    concat ("appr_" ∷ context.incident_id ∷ "_" ∷ prefix 8 proposal.commit_sha ∷ [])

module _ (settings : Settings) (python : Python) where
  unfoldable pub check_eligibility : FixProposal → ValidationResult → Bool × Option String
  unfolding validation_value
  check_eligibility proposal validation =
      if not proposal.is_valid
        || (not (is_proposed proposal.status) || is_blank proposal.unified_diff)
      then (false, some "FixProposal is invalid, rejected, or empty.")
      else if not (is_passed validation.status) || not (is_zero_exit validation.exit_code)
      then (
        false,
        some (
            concat (
              "Sandbox validation did not pass (status: "
              ∷ validation_value validation.status
              ∷ ")."
              ∷ [])),
      )
      else if ltb proposal.confidence_score settings.min_fix_confidence_threshold
      then (
        false,
        some (
            concat (
              "Confidence "
              ∷ python.format_score proposal.confidence_score
              ∷ " below threshold "
              ∷ python.format_score settings.min_fix_confidence_threshold
              ∷ "."
              ∷ [])),
      )
      else (true, none)

  abbrev pub new_approval : Datetime → FailureContext → FixProposal → ApprovalRecord
  new_approval t context proposal = record {
    approval_id = approval_id_of context proposal;
    incident_id = context.incident_id;
    diagnosis_id = none;
    proposal_id = proposal.proposal_id;
    commit_sha = proposal.commit_sha;
    status = ApprovalStatus.pending;
    slack_channel_id = none;
    slack_message_ts = none;
    requested_at = t;
    decided_at = none;
    decided_by = none;
    decision_reason = none;
    expires_at = some (t + hours settings.approval_ttl_hours);
    created_at = t;
    updated_at = t;
  }

abbrev pub target_of : String → ApprovalStatus
target_of decision =
    if decision == "approve" then ApprovalStatus.approved else ApprovalStatus.rejected

-- `current.expires_at and now > current.expires_at`
abbrev pub is_expired : Datetime → ApprovalRecord → Bool
is_expired t r = elim r.expires_at [ none ↦ false | some expires_at ↦ ltb expires_at t ]

not_found : {A : Type 0} → String → M A
not_found approval_id =
    raise ErrorKind.approval_not_found
      (concat ("Approval record '" ∷ approval_id ∷ "' not found." ∷ []))

-- what follows the conditional update
settle : String → ApprovalStatus → Option ApprovalRecord × Bool → M (ApprovalRecord × Bool)
unfolding not_found
settle approval_id target_status (none, is_duplicate) = not_found approval_id
settle approval_id target_status (some r, is_duplicate) = do
  raise_if (not is_duplicate && not (r.status == target_status)) ErrorKind.illegal_transition (
      concat (
        "Cannot transition '"
        ∷ approval_value r.status
        ∷ "' to '"
        ∷ approval_value target_status
        ∷ "'"
        ∷ []))
  pure (r, is_duplicate)

pub decide_current :
    String → ApprovalStatus → String → Option String → ApprovalRecord → M (ApprovalRecord × Bool)
unfolding settle
decide_current approval_id target_status decided_by reason current = do
  t ← now
  choose (is_expired t current && is_pending current)
      (expire_approval approval_id
        >> raise ErrorKind.illegal_transition
            (concat ("Approval '" ∷ approval_id ∷ "' has expired and cannot be decided." ∷ [])))
      (do
        found ← repo_record_decision approval_id target_status decided_by reason
        settle approval_id target_status found)

pub after_get :
    String
    → ApprovalStatus
    → String
    → Option String
    → Option ApprovalRecord
    → M (ApprovalRecord × Bool)
unfolding not_found decide_current
after_get approval_id target_status decided_by reason none = not_found approval_id
after_get approval_id target_status decided_by reason (some current) =
    decide_current approval_id target_status decided_by reason current

-- the decision in the database: the body of `async with self.repository_factory()`
unfoldable pub decide_in_database :
    String → String → String → Option String → M (ApprovalRecord × Bool)
unfolding after_get
decide_in_database approval_id decision decided_by reason = do
  current ← get_approval approval_id
  after_get approval_id (target_of decision) decided_by reason current

module _ (slack : SlackClient) where
  -- the card's message is noted on the returned record, and not in the database
  post_card : ApprovalRecord → FailureContext → FixProposal → ValidationResult → M ApprovalRecord
  post_card persisted context proposal validation =
      catch
        (do
          emit (Effect.card_posted persisted.approval_id)
          meta ← external (slack.post_approval_card persisted context proposal validation)
          pure (record persisted {
            slack_channel_id = meta.channel_id;
            slack_message_ts = meta.message_ts;
          }))
        (λ _. pure persisted)

  -- `if response_url:`
  update_card : Option String → ApprovalRecord → M (Unit {0})
  update_card none r = pure tt
  update_card (some response_url) r = choose (is_blank response_url) (pure tt) (
      catch
        (do
          emit (Effect.card_updated r.approval_id)
          external (slack.update_approval_card response_url r)
          pure tt)
        (λ _. pure tt))

  module _ (settings : Settings) (python : Python) where
    unfoldable pub request_approval :
        FailureContext → FixProposal → ValidationResult → M ApprovalRecord
    unfolding check_eligibility post_card
    request_approval context proposal validation = do
      let (is_eligible, reason) = check_eligibility settings python proposal validation
      raise_if (not is_eligible) ErrorKind.ineligible
          (or_else reason "Proposal is ineligible for human review.")
      t ← now
      persisted ← create_approval (new_approval settings python t context proposal)
      post_card persisted context proposal validation

  unfoldable pub record_decision :
      String → String → String → Option String → Option String → M (ApprovalRecord × Bool)
  unfolding decide_in_database update_card
  record_decision approval_id decision decided_by decision_reason response_url = do
    decided ← decide_in_database approval_id decision decided_by decision_reason
    update_card response_url decided.0
    pure decided
