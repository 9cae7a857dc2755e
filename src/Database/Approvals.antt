-- ===== src/Database/Approvals.antt =====
-- class ApprovalRepository of src/packages/database/repositories.py. A row is the record that
-- `_to_domain` makes of it: the text columns of an enumeration hold its member.
pub mod Laws
pub mod Stores
use akesis.Common.{
  ℕ, zero, suc, ◌+◌, ◌-◌, ◌*◌, ◌/◌, ◌%◌, ◌≤◌, ◌<◌, min, max, String, ◌≡◌, refl, sym, ap, ◌∙◌, ◌≢◌,
  ◌↔◌, ◌⊎◌, inl, inr, Bool, true, false, not, ◌&&◌, ◌||◌, Option, none, some, List, [], ◌∷◌, ◌++◌,
  map, arith, eq_iff, eq_refl, Eq, ◌==◌, nat_eq, string_eq, if◌then◌else◌, ltb, leb, Bool-cases,
  Option-cases, is_some, or_else, length, is_empty, any, all, select, update, length-append, All,
  contains, dedupe, concat, join, prefix, is_blank, decimal,
}
use akesis.Domain.{Datetime, ApprovalRecord, ApprovalStatus, approval_eq}
use akesis.Runtime.{World, M, ◌>>=◌, pure, now}
use akesis.Database.Table.{Table, select_one, update_one, insert_row}

abbrev pub approvals : Table ApprovalRecord
approvals = record { rows = λ w. w.approvals; store = λ rows w. record w { approvals = rows } }

abbrev pub has_id : String → ApprovalRecord → Bool
has_id approval_id r = r.approval_id == approval_id

-- the primary key, and the unique column `proposal_id`
abbrev pub clashes : ApprovalRecord → ApprovalRecord → Bool
clashes r' r = r.approval_id == r'.approval_id || r.proposal_id == r'.proposal_id

-- `decided_at` is not among the columns that are set
unfoldable pub create_approval : ApprovalRecord → M ApprovalRecord
unfolding insert_row
create_approval r = insert_row approvals (clashes r) (record r { decided_at = none })

unfoldable pub get_approval : String → M (Option ApprovalRecord)
unfolding select_one
get_approval approval_id = select_one approvals (has_id approval_id)

unfoldable pub get_by_proposal_id : String → M (Option ApprovalRecord)
unfolding select_one
get_by_proposal_id proposal_id = select_one approvals (λ r. r.proposal_id == proposal_id)

abbrev pub is_pending : ApprovalRecord → Bool
is_pending r = r.status == ApprovalStatus.pending

-- the `values` of the conditional update
abbrev pub decide :
    Datetime → ApprovalStatus → String → Option String → ApprovalRecord → ApprovalRecord
decide t target_status reviewer reason r = record r {
  status = target_status;
  decided_by = some reviewer;
  decision_reason = reason;
  decided_at = some t;
  updated_at = t;
}

-- what follows the update, by the row that came back and the row that there is
abbrev pub classify : ApprovalStatus → Option ApprovalRecord → Option ApprovalRecord × Bool
classify target_status none = (none, false)
classify target_status (some current) =
    if current.status == target_status then (some current, true) else (some current, false)

after_update : String → ApprovalStatus → Option ApprovalRecord → M (Option ApprovalRecord × Bool)
unfolding get_approval
after_update approval_id target_status (some updated) = pure (some updated, false)
after_update approval_id target_status none = do
  current ← get_approval approval_id
  pure (classify target_status current)

-- (record, is_duplicate)
unfoldable pub record_decision :
    String → ApprovalStatus → String → Option String → M (Option ApprovalRecord × Bool)
unfolding update_one after_update
record_decision approval_id target_status reviewer reason = do
  t ← now
  updated ←
      update_one approvals (λ r. has_id approval_id r && is_pending r)
        (decide t target_status reviewer reason)
  after_update approval_id target_status updated

-- the `values` of the expiry
abbrev pub lapse : Datetime → ApprovalRecord → ApprovalRecord
lapse t r = record r { status = ApprovalStatus.expired; updated_at = t }

unfoldable pub expire_approval : String → M Bool
unfolding update_one
expire_approval approval_id = do
  t ← now
  updated ← update_one approvals (λ r. has_id approval_id r && is_pending r) (lapse t)
  pure (is_some updated)
