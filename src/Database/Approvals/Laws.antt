-- ===== src/Database/Approvals/Laws.antt =====
-- What the approval repository does to the one row of a key, and its key invariant.
use mathlib.Core.Path.{subst}
use akesis.Common.{
  suc, ◌≤◌, String, ◌≡◌, refl, ap, ◌≢◌, ◌⊎◌, inl, inr, Bool, true, false, ◌&&◌, Option, none, some,
  List, [], ◌∷◌, ◌++◌, arith, eq_iff, ◌==◌, nat_eq, string_eq, if◌then◌else◌, length, select,
  update, length-append, All,
}
use akesis.Domain.{ApprovalRecord, ApprovalStatus, approval_eq}
use akesis.Runtime.{World, ok}
use akesis.Database.Table.{
  select-and, length-update, select-append, select-update, select_none_of_any_or,
}
use akesis.Database.Approvals.{
  has_id, is_pending, decide, classify, record_decision, get_approval, create_approval,
  expire_approval, lapse,
}

abbrev pub rows_of : String → World → List ApprovalRecord
rows_of approval_id w = select (has_id approval_id) w.approvals

abbrev pub open_row : String → ApprovalRecord → Bool
open_row approval_id r = has_id approval_id r && is_pending r

module _ (id : String) (w : World) where
  pub select-open :
      {r : ApprovalRecord}
      → rows_of id w ≡ r ∷ []
      → select (open_row id) w.approvals ≡ (if is_pending r then r ∷ [] else [])
  select-open e = rw (select-and (has_id id) is_pending w.approvals, e)

  pub select-open_none : rows_of id w ≡ [] → select (open_row id) w.approvals ≡ []
  select-open_none e = rw (select-and (has_id id) is_pending w.approvals, e)

  pub get_approval-some :
      {r : ApprovalRecord} → rows_of id w ≡ r ∷ [] → get_approval id w ≡ (ok (some r), w)
  unfolding get_approval
  get_approval-some e = rw (e, get_approval)

  pub get_approval-none : rows_of id w ≡ [] → get_approval id w ≡ (ok none, w)
  unfolding get_approval
  get_approval-none e = rw (e, get_approval)

  pub expire_approval_pending :
      {r : ApprovalRecord}
      → rows_of id w ≡ r ∷ []
      → r.status ≡ ApprovalStatus.pending
      → expire_approval id w ≡ (
        ok true,
        record w {
          approvals = update (open_row id) (lapse (w.times w.reads)) w.approvals;
          reads = suc w.reads;
        },
      )
  unfolding expire_approval
  expire_approval_pending {r} e p = ground (arith, select-open e)

  module _ (target : ApprovalStatus) (reviewer : String) (reason : Option String) where
    pub record_decision_pending :
        {r : ApprovalRecord}
        → rows_of id w ≡ r ∷ []
        → r.status ≡ ApprovalStatus.pending
        → record_decision id target reviewer reason w ≡ (
          ok (some (decide (w.times w.reads) target reviewer reason r), false),
          record w {
            approvals =
                update (open_row id) (decide (w.times w.reads) target reviewer reason) w.approvals;
            reads = suc w.reads;
          },
        )
    unfolding record_decision
    record_decision_pending {r} e p = ground (arith, select-open e)

    pub record_decision_closed :
        {r : ApprovalRecord}
        → rows_of id w ≡ r ∷ []
        → is_pending r ≡ false
        → record_decision id target reviewer reason w
          ≡ (ok (classify target (some r)), record w { reads = suc w.reads })
    unfolding record_decision
    record_decision_closed {r} e p = ground (arith, select-open e)

    pub record_decision_missing :
        rows_of id w ≡ []
        → record_decision id target reviewer reason w
          ≡ (ok (none, false), record w { reads = suc w.reads })
    unfolding record_decision
    record_decision_missing e = ground (arith, select-open_none e)

    -- Whatever the table holds, a decision leaves it alone or rewrites the open rows of its key.
    approvals_after_decision :
        let w' = (record_decision id target reviewer reason w).1 in
        (w'.approvals ≡ w.approvals)
        ⊎ (w'.approvals
            ≡ update (open_row id) (decide (w.times w.reads) target reviewer reason) w.approvals)
    unfolding record_decision
    approvals_after_decision = ground arith

  approvals_after_expiry :
      let w' = (expire_approval id w).1 in
      (w'.approvals ≡ w.approvals)
      ⊎ (w'.approvals ≡ update (open_row id) (lapse (w.times w.reads)) w.approvals)
  unfolding expire_approval
  approvals_after_expiry = ground arith

pub approvals_after_creation :
    (w : World) (r : ApprovalRecord)
    → let w' = (create_approval r w).1 in
      (w'.approvals ≡ w.approvals)
      ⊎ ((rows_of r.approval_id w ≡ [])
          × (w'.approvals ≡ w.approvals ++ record r { decided_at = none } ∷ []))
unfolding create_approval
approvals_after_creation w r = ground (
  arith,
  select_none_of_any_or (has_id r.approval_id) (λ x. x.proposal_id == r.proposal_id) w.approvals,
)

at_most_one :
    (rows : List ApprovalRecord)
    → length rows ≤ 1
    → (rows ≡ []) ⊎ ((r : ApprovalRecord) × (rows ≡ r ∷ []))
at_most_one [] h = inl refl
at_most_one (r ∷ []) h = inr (r, refl)
at_most_one (r ∷ s ∷ rows) h = absurd (omega arith)

-- No two rows share a key.
abbrev pub IsKeyed : World → Type 0
IsKeyed w = (id : String) → length (rows_of id w) ≤ 1

-- A closed row of a key stays as it is, and stays the only one.
abbrev pub KeepsClosed : World → World → Type 0
KeepsClosed w w' =
    (k : String) (r : ApprovalRecord)
    → rows_of k w ≡ r ∷ []
    → is_pending r ≡ false
    → rows_of k w' ≡ r ∷ []

module _ (id : String) (f : ApprovalRecord → ApprovalRecord)
    (same : (r : ApprovalRecord) → (f r).approval_id ≡ r.approval_id) (w : World) where
  pub rows-update :
      (k : String)
      → select (has_id k) (update (open_row id) f w.approvals)
        ≡ update (open_row id) f (rows_of k w)
  rows-update k =
      select-update (has_id k) (open_row id) f w.approvals
        (λ r. ap (λ (s : String). s == k) (same r))

  update-KeepsClosed :
      (w' : World) → w'.approvals ≡ update (open_row id) f w.approvals → KeepsClosed w w'
  update-KeepsClosed w' e k r h c = rw e (rw (rows-update k) (rw h (ground arith)))

  update-IsKeyed :
      (w' : World) → w'.approvals ≡ update (open_row id) f w.approvals → IsKeyed w → IsKeyed w'
  update-IsKeyed w' e h k = rw e (rw (rows-update k) (rw length-update (h k)))

same-KeepsClosed : (w w' : World) → w'.approvals ≡ w.approvals → KeepsClosed w w'
same-KeepsClosed w w' e k r h c = rw e h

same-IsKeyed : (w w' : World) → w'.approvals ≡ w.approvals → IsKeyed w → IsKeyed w'
same-IsKeyed w w' e h k = rw e (h k)

module _ (w : World) where
  pub record_decision-KeepsClosed :
      (id : String) (t : ApprovalStatus) (rv : String) (rs : Option String)
      → KeepsClosed w (record_decision id t rv rs w).1
  record_decision-KeepsClosed id t rv rs = elim (approvals_after_decision id w t rv rs) [
    | inl e ↦ same-KeepsClosed w (record_decision id t rv rs w).1 e
    | inr e ↦
        update-KeepsClosed id (decide (w.times w.reads) t rv rs) (λ r. refl) w
          (record_decision id t rv rs w).1 e
  ]

  pub record_decision-IsKeyed :
      (id : String) (t : ApprovalStatus) (rv : String) (rs : Option String)
      → IsKeyed w
      → IsKeyed (record_decision id t rv rs w).1
  record_decision-IsKeyed id t rv rs = elim (approvals_after_decision id w t rv rs) [
    | inl e ↦ same-IsKeyed w (record_decision id t rv rs w).1 e
    | inr e ↦
        update-IsKeyed id (decide (w.times w.reads) t rv rs) (λ r. refl) w
          (record_decision id t rv rs w).1 e
  ]

  pub expire_approval-KeepsClosed : (id : String) → KeepsClosed w (expire_approval id w).1
  expire_approval-KeepsClosed id = elim (approvals_after_expiry id w) [
    | inl e ↦ same-KeepsClosed w (expire_approval id w).1 e
    | inr e ↦
        update-KeepsClosed id (lapse (w.times w.reads)) (λ r. refl) w (expire_approval id w).1 e
  ]

  pub expire_approval-IsKeyed : (id : String) → IsKeyed w → IsKeyed (expire_approval id w).1
  expire_approval-IsKeyed id = elim (approvals_after_expiry id w) [
    | inl e ↦ same-IsKeyed w (expire_approval id w).1 e
    | inr e ↦ update-IsKeyed id (lapse (w.times w.reads)) (λ r. refl) w (expire_approval id w).1 e
  ]

  rows_after_insert :
      (r : ApprovalRecord) (w' : World) (k : String)
      → w'.approvals ≡ w.approvals ++ r ∷ []
      → rows_of k w' ≡ rows_of k w ++ select (has_id k) (r ∷ [])
  rows_after_insert r w' k e = rw e (select-append (has_id k) w.approvals (r ∷ []))

  pub create_approval-KeepsClosed : (r : ApprovalRecord) → KeepsClosed w (create_approval r w).1
  create_approval-KeepsClosed r = elim (approvals_after_creation w r) [
    | inl e ↦ same-KeepsClosed w (create_approval r w).1 e
    | inr (free, e) ↦ λ k x h c. ground (
      arith,
      rows_after_insert (record r { decided_at = none }) (create_approval r w).1 k e,
      eq_iff r.approval_id k,
    )
  ]

  pub create_approval-IsKeyed : (r : ApprovalRecord) → IsKeyed w → IsKeyed (create_approval r w).1
  create_approval-IsKeyed r h = elim (approvals_after_creation w r) [
    | inl e ↦ same-IsKeyed w (create_approval r w).1 e h
    | inr (free, e) ↦ λ k.
        rw (rows_after_insert (record r { decided_at = none }) (create_approval r w).1 k e) (
          ground (
            arith,
            length-append {0} (rows_of k w)
                (select (has_id k) (record r { decided_at = none } ∷ [])),
            eq_iff r.approval_id k,
            h k,
          ))
  ]

module _ (id k : String) (f : ApprovalRecord → ApprovalRecord) (other : id ≢ k) where
  pub update-select_ne :
      (rows : List ApprovalRecord)
      → update (open_row id) f (select (has_id k) rows) ≡ select (has_id k) rows
  update-select_ne [] = refl
  update-select_ne (r ∷ rows) =
      ground (arith, update-select_ne rows, eq_iff r.approval_id k, eq_iff r.approval_id id)

-- A key has no row, or one.
pub rows-cases :
    (id : String) (w : World)
    → IsKeyed w
    → (rows_of id w ≡ []) ⊎ ((r : ApprovalRecord) × (rows_of id w ≡ r ∷ []))
rows-cases id w h = at_most_one (rows_of id w) (h id)

has_id-select :
    (id : String) (rows : List ApprovalRecord)
    → All (λ r. has_id id r ≡ true) (select (has_id id) rows)
has_id-select id [] = tt
has_id-select id (r ∷ rows) = ground (arith, has_id-select id rows)

pub has_id-rows :
    (id : String) (w : World) {r : ApprovalRecord} → rows_of id w ≡ r ∷ [] → has_id id r ≡ true
has_id-rows id w {r} e = (subst (All (λ x. has_id id x ≡ true)) e (has_id-select id w.approvals)).0
