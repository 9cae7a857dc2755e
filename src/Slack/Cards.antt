-- ===== src/Slack/Cards.antt =====
-- The buttons of a posted card come back as the decisions that they name.
use akesis.Common.{
  String, ◌≡◌, refl, sym, ap, ◌∙◌, true, false, Option, none, some, List, [], ◌∷◌, ◌++◌, map, ◌==◌,
  nat_eq, string_eq, if◌then◌else◌, or_else, is_blank,
}
use akesis.Runtime.{World}
use akesis.Approval.{SlackClient, SlackMeta}
use akesis.Calls.{Outcome, returned}
use akesis.Calls.Post.{
  Ensures, bind-answered, finish-Ensures, throw-Ensures, choose-Ensures, bind-ask, Ensures-imp,
}
use akesis.Http.{
  dict_value, list_value, JsonValue, json_string, json_object, json_array, JsonItems, no_items,
  item, get_field, Request, Response, Exchange, responded, is_success, dict_value, unreachable,
}
use akesis.Routes.{SlackAction, SlackPayload}
use akesis.Routes.Handlers.{handle_action, decide_and_respond, first_text}
use akesis.Slack.{
  SlackCall, SlackError, ApprovalRecord, Python, FailureContext, FixProposal, ValidationResult,
  SlackApi, post_approval_card, build_approval_blocks, card_outcome, post_request,
}

abbrev items_of : JsonItems → List JsonValue
items_of no_items = []
items_of (item x xs) = x ∷ items_of xs

-- the list under a name, empty where there is none
abbrev pub list_at : String → JsonValue → List JsonValue
list_at k (json_object fs) = elim (get_field k fs) [ some (json_array xs) ↦ items_of xs | _ ↦ [] ]
list_at k v = []

abbrev pub string_at : String → JsonValue → Option String
string_at k (json_object fs) = elim (get_field k fs) [ some (json_string s) ↦ some s | _ ↦ none ]
string_at k v = none

-- what Slack sends back when this element is clicked
abbrev pub click : JsonValue → SlackAction
click element = record {
  action_id = string_at "action_id" element;
  value = string_at "value" element;
}

abbrev pub block_actions : JsonValue → List SlackAction
block_actions block =
    if or_else (string_at "type" block) "" == "actions"
    then map click (list_at "elements" block)
    else []

abbrev pub actions_of : List JsonValue → List SlackAction
actions_of [] = []
actions_of (b ∷ bs) = block_actions b ++ actions_of bs

-- what can be clicked on a card
abbrev pub card_actions : JsonValue → List SlackAction
card_actions card = actions_of (list_at "blocks" card)

-- A click decides this approval in this way, in the name of whoever clicks.
abbrev pub Decides : String → String → SlackAction → Type 0
Decides approval_id decision action =
    (slack : SlackClient) (payload : SlackPayload) (rest : List SlackAction) (w : World)
    → handle_action slack payload (action ∷ rest) w
      ≡ decide_and_respond slack approval_id decision
          (first_text payload.user.username payload.user.name
            (or_else payload.user.id "unknown_user"))
          payload.response_url w

-- One card was posted at this address; exactly two clicks are possible on it, of which the first
-- approves the approval and the second rejects it; a message is returned only where Slack accepted
-- the card.
abbrev pub IsPosted : String → String → Outcome SlackError SlackMeta → List SlackCall → Type 0
IsPosted url approval_id o vs =
    (request : Request) × (answer : Exchange) × (card : JsonValue) × (approve reject : SlackAction)
    × (vs ≡ record { request = request; answer = answer } ∷ [])
    × (request.url ≡ url)
    × (request.payload ≡ some card)
    × (card_actions card ≡ approve ∷ reject ∷ [])
    × Decides approval_id "approve" approve
    × Decides approval_id "reject" reject
    × ((meta : SlackMeta)
        → o ≡ returned meta
        → (res : Response) × (answer ≡ responded res) × (is_success res.status_code ≡ true))

module _ (approval : ApprovalRecord) (named : is_blank approval.approval_id ≡ false) where
  approve-Decides :
      Decides approval.approval_id "approve"
        (record { action_id = some "approve_fix"; value = some approval.approval_id })
  unfolding handle_action
  approve-Decides slack payload rest w = rw named refl

  reject-Decides :
      Decides approval.approval_id "reject"
        (record { action_id = some "reject_fix"; value = some approval.approval_id })
  unfolding handle_action
  reject-Decides slack payload rest w = rw named refl

  module _ (python : Python) (context : FailureContext) (proposal : FixProposal)
      (validation : ValidationResult) where
    abbrev card : JsonValue
    card = dict_value (
        ("blocks", list_value (build_approval_blocks python approval context proposal validation))
        ∷ [])

    card-actions :
        card_actions card
        ≡ record { action_id = some "approve_fix"; value = some approval.approval_id }
          ∷ record { action_id = some "reject_fix"; value = some approval.approval_id }
          ∷ []
    card-actions = refl

    card_outcome_lem :
        (api : SlackApi) (answer : Exchange)
        → Ensures
            (λ o ws.
              (ws ≡ [])
              × ((meta : SlackMeta)
                  → o ≡ returned meta
                  → (res : Response) × (answer ≡ responded res)
                    × (is_success res.status_code ≡ true)))
            (card_outcome python api answer)
    card_outcome_lem api (unreachable m) = throw-Ensures _ _ (refl, λ meta e. cc)
    card_outcome_lem api (responded res) =
        choose-Ensures _ (is_success res.status_code) _ _
          (λ s.
            bind-ask _ api.time_text _ (λ t. finish-Ensures _ _ (refl, λ meta e. (res, refl, s))))
          (λ s. throw-Ensures _ _ (refl, λ meta e. cc))

    -- With an address and an identifier that are not empty, `post_approval_card` sends one card to
    -- the address, on which exactly two clicks are possible; the handler of interactions takes the
    -- first to approve this approval and the second to reject it, whoever clicks and whatever else
    -- its payload says; and it returns only where Slack accepted the card.
    pub post_approval_card-IsPosted :
        (api : SlackApi) (url : String)
        → is_blank url ≡ false
        → Ensures
            (IsPosted url approval.approval_id)
            (post_approval_card python api url approval context proposal validation)
    unfolding post_approval_card
    post_approval_card-IsPosted api url h =
        choose-Ensures _ (is_blank url) _ _ (λ e. let g : false ≡ true = sym h ∙ e in cc)
          (λ e. bind-answered _ _ (api.send _) _ (λ answer.
            Ensures-imp _ _ _ (card_outcome_lem api answer) (λ o ws g. (
              post_request url card,
              answer,
              card,
              _,
              _,
              ap (λ t. record { request = post_request url card; answer = answer } ∷ t) g.0,
              refl,
              refl,
              card-actions,
              approve-Decides,
              reject-Decides,
              g.1,
            ))))
