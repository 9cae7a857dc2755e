-- ===== src/Database/Approvals/Stores.antt =====
-- What the operations of class ApprovalRepository of src/packages/database/repositories.py keep.
use akesis.Common.{String, Option, none, some, nat_eq, string_eq}
use akesis.Domain.{ApprovalRecord, ApprovalStatus}
use akesis.Runtime.{World}
use akesis.Runtime.Keeps.{Keeps, Timeless, keeps_rules}
use akesis.Database.Table.Stores.{Stores, select_one-Keeps, update_one-Keeps}
use akesis.Database.Approvals.{
  approvals, get_approval, record_decision, expire_approval, after_update,
}

module _ {P : World → Type 0} where
  pub get-Keeps : (id : String) → Keeps P (get_approval id)
  unfolding get_approval
  get-Keeps id = search select_one-Keeps

module _ {P : World → Type 0} (t : Timeless P) (s : Stores approvals P) where
  after_update-Keeps :
      (id : String) (target : ApprovalStatus) (o : Option ApprovalRecord)
      → Keeps P (after_update id target o)
  unfolding after_update
  after_update-Keeps id target none = search (keeps_rules, get-Keeps)
  after_update-Keeps id target (some r) = search keeps_rules

  pub repo-Keeps :
      (id : String) (target : ApprovalStatus) (by : String) (reason : Option String)
      → Keeps P (record_decision id target by reason)
  unfolding record_decision
  repo-Keeps id target by reason = search (keeps_rules, t, s, update_one-Keeps, after_update-Keeps)

  pub expire-Keeps : (id : String) → Keeps P (expire_approval id)
  unfolding expire_approval
  expire-Keeps id = search (keeps_rules, t, s, update_one-Keeps)
