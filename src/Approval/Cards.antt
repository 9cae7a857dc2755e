-- ===== src/Approval/Cards.antt =====
-- What the outside sees of a decision: `record_decision` of src/packages/shared/approval_service.py.
use akesis.Common.{
  suc, String, ◌≡◌, refl, inl, inr, Bool, Option, none, some, ◌∷◌, nat_eq, string_eq, Bool-cases,
  is_blank,
}
use akesis.Domain.{ApprovalRecord, ApprovalStatus}
use akesis.Runtime.{World, handle, continue, ok, err}
use akesis.Runtime.Keeps.{Keeps, Timeless, keeps_rules}
use akesis.Database.Table.Stores.{Stores}
use akesis.Database.Approvals.{approvals}
use akesis.Database.Approvals.Stores.{get-Keeps, repo-Keeps, expire-Keeps}
use akesis.Approval.{
  decide_in_database, after_get, decide_current, settle, not_found, Effect, Result, SlackClient,
  record_decision, update_card, Error, pure,
}

module _ {P : World → Type 0} (t : Timeless P) (s : Stores approvals P) where
  not_found-Keeps : {A : Type 0} (id : String) → Keeps P (not_found {A = A} id)
  unfolding not_found
  not_found-Keeps id = search keeps_rules

  settle-Keeps :
      (id : String) (target : ApprovalStatus) (found : Option ApprovalRecord × Bool)
      → Keeps P (settle id target found)
  unfolding settle
  settle-Keeps id target (none, d) = not_found-Keeps id
  settle-Keeps id target (some r, d) = search keeps_rules

  after_get-Keeps :
      (id : String) (target : ApprovalStatus) (by : String) (reason : Option String)
      (o : Option ApprovalRecord)
      → Keeps P (after_get id target by reason o)
  unfolding after_get decide_current
  after_get-Keeps id target by reason none = not_found-Keeps id
  after_get-Keeps id target by reason (some r) =
      search (keeps_rules, t, s, expire-Keeps, repo-Keeps, settle-Keeps) depth 12

  pub decide-Keeps :
      (id decision by : String) (reason : Option String)
      → Keeps P (decide_in_database id decision by reason)
  unfolding decide_in_database
  decide-Keeps id decision by reason = search (keeps_rules, get-Keeps, after_get-Keeps)

-- The state after the card's update, which is tried or not.
pub data CardStep (r : ApprovalRecord) (w : World) : World → Type 0 where
  untried : CardStep r w w
  tried :
      CardStep r w
        (record w { effects = Effect.card_updated r.approval_id ∷ w.effects; reads = suc w.reads })

swallow :
    (r : Result Bool) (w : World)
    → handle (continue (r, w) (λ _. pure tt)) (λ _. pure tt) ≡ (ok tt, w)
swallow (ok b) w = refl
swallow (err e) w = refl

module _ (slack : SlackClient) where
  update_card-step :
      (response_url : Option String) (r : ApprovalRecord) (w : World)
      → (w' : World) × (CardStep r w w' × (update_card slack response_url r w ≡ (ok tt, w')))
  unfolding update_card
  update_card-step none r w = (w, (untried, refl))
  update_card-step (some url) r w = elim (Bool-cases (is_blank url)) [
    | inl blank ↦ (w, (untried, rw blank refl))
    | inr shown ↦ (_, (tried, rw shown (swallow (slack.update_approval_card url r w.reads) _)))
  ]

  -- A decision that is made in the database is answered, and one that is not is raised, whatever
  -- becomes of the card.
  pub record_decision-decided :
      (id decision by : String) (reason : Option String) (url : Option String) (w w' : World)
      (r : ApprovalRecord) (d : Bool)
      → decide_in_database id decision by reason w ≡ (ok (r, d), w')
      → (w'' : World) × (CardStep r w' w''
          × (record_decision slack id decision by reason url w ≡ (ok (r, d), w'')))
  unfolding record_decision
  record_decision-decided id decision by reason url w w' r d e =
      let (w'', (step, ends)) = update_card-step url r w' in (w'', (step, rw (e, ends) refl))

  pub record_decision-raised :
      (id decision by : String) (reason : Option String) (url : Option String) (w w' : World)
      (x : Error)
      → decide_in_database id decision by reason w ≡ (err x, w')
      → record_decision slack id decision by reason url w ≡ (err x, w')
  unfolding record_decision
  record_decision-raised id decision by reason url w w' x e = rw e refl

pub decide-effects :
    (id decision by : String) (reason : Option String) (w : World)
    → (decide_in_database id decision by reason w).1.effects ≡ w.effects
decide-effects id decision by reason w =
    (decide-Keeps {P = λ v. v.effects ≡ w.effects} (record { later = λ v h. h })
        (record { stored = λ rows v h. h }) id decision by reason).after
      w refl
