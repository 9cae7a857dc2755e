-- ===== src/Routes/Interaction.antt =====
-- When a Slack interaction, `handle_slack_interaction` of src/apps/api/routes.py, resumes a pipeline.
use akesis.Common.{
  suc, String, ◌≡◌, refl, sym, ap, ◌∙◌, inl, inr, Bool, true, false, not, ◌&&◌, Option, none, List,
  [], ◌∷◌, ◌++◌, arith, ◌==◌, nat_eq, string_eq, if◌then◌else◌, Bool-cases, select,
}
use akesis.Domain.{ApprovalRecord, ApprovalStatus, approval_eq}
use akesis.Runtime.{World, Result, ok, err, Error, Effect, handle}
use akesis.Approval.{SlackClient, decide_in_database, target_of}
use akesis.Approval.Lifecycle.{Verdict, verdict, Answers, row, decide_in_database-verdict}
use akesis.Database.Approvals.Laws.{IsKeyed}
use akesis.Routes.Handlers.{decide_and_respond, respond, to_http}
use akesis.Approval.Cards.{
  CardStep, record_decision-decided, record_decision-raised, decide-effects,
}

abbrev is_resume : Effect → Bool
is_resume (Effect.resume_scheduled _) = true
is_resume _ = false

-- the resumptions that were scheduled, the latest first
abbrev pub resumes : World → List Effect
resumes w = select is_resume w.effects

-- what a verdict schedules
abbrev pub scheduled : Verdict → List Effect
scheduled (Verdict.accepted r) =
    if r.status == ApprovalStatus.approved then Effect.resume_scheduled r.approval_id ∷ [] else []
scheduled _ = []

module _ (slack : SlackClient) (id decision user : String) (url : Option String) where
  -- no card is a resumption
  card-resumes : (r : ApprovalRecord) (w w' : World) → CardStep r w w' → resumes w' ≡ resumes w
  card-resumes r w w' CardStep.untried = refl
  card-resumes r w w' CardStep.tried = refl

  responded :
      (r : ApprovalRecord) (d : Bool) (w : World)
      → resumes (handle (respond (r, d) w) to_http).1 ≡ (
          if not d && r.status == ApprovalStatus.approved
          then Effect.resume_scheduled r.approval_id ∷ resumes w
          else resumes w)
  unfolding respond
  responded r d w = elim (Bool-cases (not d && r.status == ApprovalStatus.approved)) [
    | inl go ↦ rw go refl
    | inr stop ↦ rw stop refl
  ]

  answered :
      (w w' : World) (r : ApprovalRecord) (d : Bool)
      → decide_in_database id decision user none w ≡ (ok (r, d), w')
      → resumes (decide_and_respond slack id decision user url w).1 ≡ (
          if not d && r.status == ApprovalStatus.approved
          then Effect.resume_scheduled r.approval_id ∷ resumes w'
          else resumes w')
  unfolding decide_and_respond respond to_http
  answered w w' r d e =
      let (w'', (step, ends)) =
        record_decision-decided slack id decision user none url w w' r d e in
      rw (ends, sym (card-resumes r w' w'' step)) (responded r d w'')

  to_http-state : (x : Error) (w : World) → (to_http x w).1 ≡ w
  unfolding to_http
  to_http-state x w = ground arith

  raised :
      (w w' : World) (x : Error)
      → decide_in_database id decision user none w ≡ (err x, w')
      → resumes (decide_and_respond slack id decision user url w).1 ≡ resumes w'
  unfolding decide_and_respond to_http
  raised w w' x e =
      rw (record_decision-raised slack id decision user none url w w' x e)
        (ap resumes (to_http-state x w'))

  by_verdict :
      (w : World) (v : Verdict) (result : Result (ApprovalRecord × Bool)) (w' : World)
      → decide_in_database id decision user none w ≡ (result, w')
      → Answers v result
      → resumes w' ≡ resumes w
      → resumes (decide_and_respond slack id decision user url w).1 ≡ scheduled v ++ resumes w
  by_verdict w (Verdict.accepted r) result w' e h k =
      answered w w' r false (e ∙ ap (λ x. (x, w')) h)
      ∙ rw k (
          prepended (r.status == ApprovalStatus.approved) (Effect.resume_scheduled r.approval_id)
            (resumes w))
    where
      prepended :
          (b : Bool) (x : Effect) (xs : List Effect)
          → (if b then x ∷ xs else xs) ≡ (if b then x ∷ [] else []) ++ xs
      prepended true x xs = refl
      prepended false x xs = refl
  by_verdict w (Verdict.duplicate r) result w' e h k =
      answered w w' r true (e ∙ ap (λ x. (x, w')) h) ∙ k
  by_verdict w (Verdict.lapsed r) (err x) w' e h k = raised w w' x e ∙ k
  by_verdict w (Verdict.conflicting r) (err x) w' e h k = raised w w' x e ∙ k
  by_verdict w Verdict.unknown (err x) w' e h k = raised w w' x e ∙ k
  by_verdict w (Verdict.lapsed r) (ok _) w' e h k = elim h [ ]
  by_verdict w (Verdict.conflicting r) (ok _) w' e h k = elim h [ ]
  by_verdict w Verdict.unknown (ok _) w' e h k = elim h [ ]

  -- Where no two approvals share a key, a Slack decision schedules exactly one resumption of the
  -- pipeline if it is what decided the pending approval, and approved it, and schedules none
  -- otherwise: not if it repeats or contradicts an earlier decision, comes too late, or names no
  -- approval.
  pub decide_and_respond-resumes :
      (w : World)
      → IsKeyed w
      → let v =
          verdict
            (w.times w.reads)
            (w.times (suc w.reads))
            (target_of decision)
            user
            none
            (row id w) in
        resumes (decide_and_respond slack id decision user url w).1 ≡ scheduled v ++ resumes w
  decide_and_respond-resumes w keyed =
      let (answers, _, _) = decide_in_database-verdict id decision user none w keyed in
      by_verdict w _ _ _ refl answers
        (ap (select is_resume) (decide-effects id decision user none w))
