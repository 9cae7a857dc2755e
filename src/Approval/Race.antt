-- ===== src/Approval/Race.antt =====
-- Reviewers who decide at the same time: the second half of `record_decision`, run for any number
-- of requests in any order, each on a record that it read at any earlier time.
use mathlib.Core.Path.{subst}
use akesis.Common.{
  ℕ, suc, ◌≤◌, String, ◌≡◌, refl, ◌⊎◌, inl, inr, Bool, true, false, not, ◌&&◌, Option, none, some,
  List, [], ◌∷◌, arith, eq_iff, ◌==◌, nat_eq, string_eq, if◌then◌else◌, Bool-cases,
}
use akesis.Domain.{ApprovalRecord, ApprovalStatus, approval_eq, approval_beq_iff}
use akesis.Runtime.{World, Result, ok, err, ErrorKind, raise, continue}
use akesis.Database.Approvals.{decide, is_pending, record_decision, expire_approval, classify}
use akesis.Database.Approvals.Laws.{
  rows_of, IsKeyed, KeepsClosed, rows-cases, record_decision-KeepsClosed, record_decision-IsKeyed,
  expire_approval-KeepsClosed, expire_approval-IsKeyed, record_decision_closed,
  record_decision_missing, record_decision_pending, rows-update, has_id-rows,
}
use akesis.Approval.{decide_current, target_of, is_expired, settle}
use akesis.Runtime.Post.{continue-state}

-- A request that has read `current`, perhaps long ago, and now goes on to decide.
pub record Request : Type 0 where
  pub approval_id : String
  pub decision : String
  pub decided_by : String
  pub reason : Option String
  pub current : ApprovalRecord

abbrev pub serve : Request → World → Result (ApprovalRecord × Bool) × World
serve q = decide_current q.approval_id (target_of q.decision) q.decided_by q.reason q.current

-- The request decided this approval: it returned, and not as a duplicate.
abbrev wins_by : Result (ApprovalRecord × Bool) → Bool
wins_by (ok (r, is_duplicate)) = not is_duplicate
wins_by (err e) = false

abbrev pub wins : String → Request → World → Bool
wins id q w = q.approval_id == id && wins_by (serve q w).0

-- A request that ends in a raise does not win.
never :
    {A : Type 0} (k : ErrorKind) (m : String) (r : Result A × World)
    → wins_by (continue r (λ _. raise k m)).0 ≡ false
never k m (ok a, w) = refl
never k m (err e, w) = refl

-- Neither a duplicate nor a conflict wins.
wins_by_classified :
    (id : String) (target : ApprovalStatus) (r : ApprovalRecord) (w : World)
    → wins_by (settle id target (classify target (some r)) w).0 ≡ false
unfolding settle
wins_by_classified id target r w = ground arith

-- How many of the requests, served one after the other, decided the approval.
pub winners : String → List Request → World → ℕ
winners id [] w = 0
winners id (q ∷ qs) w =
    let rest = winners id qs (serve q w).1 in if wins id q w then suc rest else rest

settle-state :
    (id : String) (target : ApprovalStatus) (found : Option ApprovalRecord × Bool) (w : World)
    → (settle id target found w).1 ≡ w
unfolding settle
settle-state id target (none, d) w = refl
settle-state id target (some r, d) w = ground arith

abbrev looked : World → World
looked w = record w { reads = suc w.reads }

-- Serving a request expires the approval, or runs the conditional update.
serve_cases :
    (q : Request) (w : World)
    → ((serve q w).1 ≡ (expire_approval q.approval_id (looked w)).1)
      ⊎ ((serve q w).1
          ≡ (record_decision q.approval_id
              (target_of q.decision)
              q.decided_by
              q.reason
              (looked w)).1)
unfolding decide_current
serve_cases q w =
    elim (Bool-cases (is_expired (w.times w.reads) q.current && is_pending q.current)) [
      | inl late ↦
          inl (rw late (continue-state (expire_approval q.approval_id (looked w)) _ (λ _ _. refl)))
      | inr open_still ↦ inr (
          rw open_still (
            continue-state
              (record_decision q.approval_id (target_of q.decision) q.decided_by q.reason
                (looked w))
              _ (settle-state q.approval_id (target_of q.decision))))
    ]

serve-KeepsClosed : (q : Request) (w : World) → KeepsClosed w (serve q w).1
serve-KeepsClosed q w = elim (serve_cases q w) [
  | inl e ↦ rw e (expire_approval-KeepsClosed (looked w) q.approval_id)
  | inr e ↦ rw e (
      record_decision-KeepsClosed (looked w) q.approval_id (target_of q.decision) q.decided_by
        q.reason)
]

serve-IsKeyed : (q : Request) (w : World) → IsKeyed w → IsKeyed (serve q w).1
serve-IsKeyed q w h = elim (serve_cases q w) [
  | inl e ↦ rw e (expire_approval-IsKeyed (looked w) q.approval_id h)
  | inr e ↦ rw e (
      record_decision-IsKeyed (looked w) q.approval_id (target_of q.decision) q.decided_by q.reason
        h)
]

module _ (q : Request) (w : World) where
  wins_late :
      (is_expired (w.times w.reads) q.current && is_pending q.current) ≡ true
      → wins_by (serve q w).0 ≡ false
  unfolding decide_current
  wins_late late = rw late (never _ _ (expire_approval q.approval_id (looked w)))

  wins_missing : rows_of q.approval_id w ≡ [] → wins_by (serve q w).0 ≡ false
  unfolding decide_current
  wins_missing e =
      elim (Bool-cases (is_expired (w.times w.reads) q.current && is_pending q.current)) [
        | inl late ↦ wins_late late
        | inr open_still ↦
            rw
              (
                open_still,
                record_decision_missing q.approval_id (looked w) (target_of q.decision) q.decided_by
                    q.reason e,
              )
              refl
      ]

  module _ {r : ApprovalRecord} (e : rows_of q.approval_id w ≡ r ∷ []) where
    -- On a closed row nobody wins.
    wins_closed : is_pending r ≡ false → wins_by (serve q w).0 ≡ false
    unfolding decide_current
    wins_closed c =
        elim (Bool-cases (is_expired (w.times w.reads) q.current && is_pending q.current)) [
          | inl late ↦ wins_late late
          | inr open_still ↦
              rw
                (
                  open_still,
                  record_decision_closed q.approval_id (looked w) (target_of q.decision)
                      q.decided_by q.reason e c,
                )
                (wins_by_classified q.approval_id (target_of q.decision) r (looked (looked w)))
        ]

    -- Who wins leaves the row closed.
    wins_closes :
        wins_by (serve q w).0 ≡ true
        → (r' : ApprovalRecord) × (rows_of q.approval_id (serve q w).1 ≡ r' ∷ [])
          × (is_pending r' ≡ false)
    unfolding decide_current
    wins_closes h = elim (Bool-cases (is_pending r)) [
      | inr closed ↦ cc (wins_closed closed)
      | inl p ↦ elim (Bool-cases (is_expired (w.times w.reads) q.current && is_pending q.current)) [
        | inl late ↦ cc (wins_late late)
        | inr open_still ↦ (
          decide (w.times (suc w.reads)) (target_of q.decision) q.decided_by q.reason r,
          rw
              (
                open_still,
                record_decision_pending q.approval_id (looked w) (target_of q.decision) q.decided_by
                    q.reason e ((approval_beq_iff _ _).0 p),
              )
              (ground (
                arith,
                rows-update q.approval_id
                    (decide (w.times (suc w.reads)) (target_of q.decision) q.decided_by q.reason)
                    (λ _. refl) w q.approval_id,
                e,
                has_id-rows q.approval_id w e,
              )),
          ground arith,
        )
      ]
    ]

winners_closed :
    (id : String) (qs : List Request) (w : World) (r : ApprovalRecord)
    → rows_of id w ≡ r ∷ []
    → is_pending r ≡ false
    → winners id qs w ≡ 0
unfolding winners
winners_closed id [] w r e c = refl
winners_closed id (q ∷ qs) w r e c = elim (Bool-cases (q.approval_id == id)) [
  | inl same ↦
      let e' : rows_of q.approval_id w ≡ r ∷ [] = rw ((eq_iff q.approval_id id).0 same) e in
      rw (same, wins_closed q w e' c)
        (winners_closed id qs (serve q w).1 r (serve-KeepsClosed q w id r e c) c)
  | inr other ↦ rw other (winners_closed id qs (serve q w).1 r (serve-KeepsClosed q w id r e c) c)
]

winners_after_win :
    (q : Request) (qs : List Request) (w : World)
    → IsKeyed w
    → wins_by (serve q w).0 ≡ true
    → winners q.approval_id qs (serve q w).1 ≡ 0
winners_after_win q qs w h win = elim (rows-cases q.approval_id w h) [
  | inl e ↦ cc (wins_missing q w e)
  | inr (r, e) ↦
      let (r', e', c) = wins_closes q w e win in
      winners_closed q.approval_id qs (serve q w).1 r' e' c
]

-- Where no two approvals share a key: however many requests decide an approval, in whatever order
-- and on whatever stale record, at most one of them is answered that the decision was its own.
pub winners-le-one : (id : String) (qs : List Request) (w : World) → IsKeyed w → winners id qs w ≤ 1
unfolding winners
winners-le-one id [] w h = omega arith
winners-le-one id (q ∷ qs) w h = elim (Bool-cases (q.approval_id == id)) [
  | inr other ↦ rw other (winners-le-one id qs (serve q w).1 (serve-IsKeyed q w h))
  | inl same ↦ elim (Bool-cases (wins_by (serve q w).0)) [
    | inr loses ↦ rw (same, loses) (winners-le-one id qs (serve q w).1 (serve-IsKeyed q w h))
    | inl win ↦
        rw (same, win)
          (omega (
            arith,
            subst (λ k. winners k qs (serve q w).1 ≡ 0) ((eq_iff q.approval_id id).0 same)
                (winners_after_win q qs w h win),
          ))
  ]
]
