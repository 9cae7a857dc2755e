-- ===== src/Approval/Lifecycle.antt =====
-- The life of an approval: what a decision does on every branch, and that a closed approval stays
-- closed. src/packages/shared/approval_service.py over the repository.
use akesis.Common.{
  suc, String, ◌≡◌, refl, ◌≢◌, inl, inr, Bool, true, false, Option, none, some, List, [], ◌∷◌,
  arith, ◌==◌, nat_eq, string_eq, if◌then◌else◌, Bool-cases, and-false,
}
use akesis.Domain.{Datetime, ApprovalRecord, ApprovalStatus, approval_eq, approval_beq_iff}
use akesis.Runtime.{World, Result, ok, ErrorKind, Raises}
use akesis.Database.Approvals.{
  decide, lapse, get_approval, is_pending, expire_approval, record_decision,
}
use akesis.Approval.{
  decide_in_database, is_expired, target_of, Bool, List, Option, some, [], false, true, after_get,
  decide_current,
}
use akesis.Database.Approvals.Laws.{
  rows_of, get_approval-none, get_approval-some, expire_approval_pending, record_decision_pending,
  record_decision_closed, rows-update, IsKeyed, update-select_ne, rows-cases, has_id-rows,
}

-- What may come of a decision, with the row that it leaves.
pub data Verdict : Type 0 where
  accepted duplicate lapsed conflicting : ApprovalRecord → Verdict
  unknown : Verdict

-- The state machine of one approval: `t` is when the request looks, `t'` when it writes.
abbrev pub verdict :
    Datetime → Datetime → ApprovalStatus → String → Option String → Option ApprovalRecord → Verdict
verdict t t' target by reason none = Verdict.unknown
verdict t t' target by reason (some r) = elim r.status [
  | ApprovalStatus.pending ↦
      if is_expired t r
      then Verdict.lapsed (lapse t' r)
      else Verdict.accepted (decide t' target by reason r)
  | s ↦ if s == target then Verdict.duplicate r else Verdict.conflicting r
]

module _ (t t' : Datetime) (target : ApprovalStatus) (by : String) (reason : Option String)
    (r : ApprovalRecord) where
  verdict_lapsed :
      r.status ≡ ApprovalStatus.pending
      → is_expired t r ≡ true
      → verdict t t' target by reason (some r) ≡ Verdict.lapsed (lapse t' r)
  verdict_lapsed p x = ground arith

  verdict_accepted :
      r.status ≡ ApprovalStatus.pending
      → is_expired t r ≡ false
      → verdict t t' target by reason (some r) ≡ Verdict.accepted (decide t' target by reason r)
  verdict_accepted p x = ground arith

  verdict_closed :
      is_pending r ≡ false
      → verdict t t' target by reason (some r)
        ≡ (if r.status == target then Verdict.duplicate r else Verdict.conflicting r)
  verdict_closed q = ground arith

-- The row that a verdict leaves.
abbrev pub left : Verdict → List ApprovalRecord
left (Verdict.accepted r) = r ∷ []
left (Verdict.duplicate r) = r ∷ []
left (Verdict.lapsed r) = r ∷ []
left (Verdict.conflicting r) = r ∷ []
left Verdict.unknown = []

-- The answer that a verdict gives: a record and whether it is a duplicate, or the exception.
abbrev pub Answers : Verdict → Result (ApprovalRecord × Bool) → Type 0
Answers (Verdict.accepted r) result = result ≡ ok (r, false)
Answers (Verdict.duplicate r) result = result ≡ ok (r, true)
Answers (Verdict.lapsed r) result = Raises ErrorKind.illegal_transition result
Answers (Verdict.conflicting r) result = Raises ErrorKind.illegal_transition result
Answers Verdict.unknown result = Raises ErrorKind.approval_not_found result

module _ (id : String) (target : ApprovalStatus) (by : String) (reason : Option String)
    (w : World) where
  abbrev verdict_in : Option ApprovalRecord → Verdict
  verdict_in = verdict (w.times w.reads) (w.times (suc w.reads)) target by reason

  decide-none :
      rows_of id w ≡ []
      → let (result, w') = after_get id target by reason none w in
        Answers Verdict.unknown result × (rows_of id w' ≡ [])
  unfolding after_get
  decide-none e = ground arith

  abbrev looked : World
  looked = record w { reads = suc w.reads }

  module _ (r : ApprovalRecord) (e : rows_of id w ≡ r ∷ []) where
    decide-lapsed :
        r.status ≡ ApprovalStatus.pending
        → is_expired (w.times w.reads) r ≡ true
        → let (result, w') = decide_current id target by reason r w in
          Raises ErrorKind.illegal_transition result
          × (rows_of id w' ≡ lapse (w.times (suc w.reads)) r ∷ [])
    unfolding decide_current
    decide-lapsed p x =
        rw (x, p, expire_approval_pending id looked e p)
          (
            refl,
            rw (rows-update id (lapse (w.times (suc w.reads))) (λ _. refl) w id, e)
                (ground (arith, has_id-rows id w e)),
          )

    decide-accepted :
        r.status ≡ ApprovalStatus.pending
        → is_expired (w.times w.reads) r ≡ false
        → let (result, w') = decide_current id target by reason r w in
          (result ≡ ok (decide (w.times (suc w.reads)) target by reason r, false))
          × (rows_of id w' ≡ decide (w.times (suc w.reads)) target by reason r ∷ [])
    unfolding decide_current
    decide-accepted p x =
        rw (x, record_decision_pending id looked target by reason e p)
          (
            ground arith,
            ground (
              arith,
              rows-update id (decide (w.times (suc w.reads)) target by reason) (λ _. refl) w id,
              e,
              has_id-rows id w e,
            ),
          )

    decide-closed :
        is_pending r ≡ false
        → let (result, w') = decide_current id target by reason r w in
          let v = if r.status == target then Verdict.duplicate r else Verdict.conflicting r in
          Answers v result × (rows_of id w' ≡ left v)
    unfolding decide_current
    decide-closed p = elim (Bool-cases (r.status == target)) [
      | inl same ↦
          rw (p, and-false, record_decision_closed id looked target by reason e p, same) (refl, e)
      | inr differs ↦
          rw (p, and-false, record_decision_closed id looked target by reason e p, differs)
            (ground (arith, differs), ground (arith, differs, e))
    ]

    decide-some :
        let (result, w') = decide_current id target by reason r w in
        Answers (verdict_in (some r)) result × (rows_of id w' ≡ left (verdict_in (some r)))
    decide-some = elim (Bool-cases (is_pending r)) [
      | inl p ↦ elim (Bool-cases (is_expired (w.times w.reads) r)) [
        | inl x ↦
            rw
              (verdict_lapsed (w.times w.reads) (w.times (suc w.reads)) target by reason r
                ((approval_beq_iff _ _).0 p) x)
              (decide-lapsed ((approval_beq_iff _ _).0 p) x)
        | inr x ↦
            rw
              (verdict_accepted (w.times w.reads) (w.times (suc w.reads)) target by reason r
                ((approval_beq_iff _ _).0 p) x)
              (decide-accepted ((approval_beq_iff _ _).0 p) x)
      ]
      | inr q ↦
          rw (verdict_closed (w.times w.reads) (w.times (suc w.reads)) target by reason r q)
            (decide-closed q)
    ]

  decide-other :
      (r : ApprovalRecord) (k : String)
      → id ≢ k
      → rows_of k (decide_current id target by reason r w).1 ≡ rows_of k w
  unfolding decide_current record_decision expire_approval get_approval
  decide-other r k ne = ground (
    arith,
    rows-update id (lapse (w.times (suc w.reads))) (λ _. refl) w k,
    rows-update id (decide (w.times (suc w.reads)) target by reason) (λ _. refl) w k,
    update-select_ne id k (lapse (w.times (suc w.reads))) ne w.approvals,
    update-select_ne id k (decide (w.times (suc w.reads)) target by reason) ne w.approvals,
  )

abbrev first : List ApprovalRecord → Option ApprovalRecord
first [] = none
first (r ∷ rows) = some r

-- The one row of a key, if there is one.
abbrev pub row : String → World → Option ApprovalRecord
row id w = first (rows_of id w)

-- Where no two rows share a key, a decision answers what the state machine says of the approval's
-- row, leaves the row that it says, and touches no other approval.
pub decide_in_database-verdict :
    (id decision by : String) (reason : Option String) (w : World)
    → IsKeyed w
    → let (result, w') = decide_in_database id decision by reason w in
      let v =
        verdict
          (w.times w.reads)
          (w.times (suc w.reads))
          (target_of decision)
          by
          reason
          (row id w) in
      Answers v result
      × (rows_of id w' ≡ left v)
      × ((k : String) → id ≢ k → rows_of k w' ≡ rows_of k w)
unfolding decide_in_database after_get
decide_in_database-verdict id decision by reason w keyed = elim (rows-cases id w keyed) [
  | inl e ↦ rw (get_approval-none id w e, e) (refl, refl, λ k ne. refl)
  | inr (r, e) ↦
      let (answers, kept) = decide-some id (target_of decision) by reason w r e in
      rw (get_approval-some id w e, e)
        (answers, kept, decide-other id (target_of decision) by reason w r)
]
