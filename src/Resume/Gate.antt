-- ===== src/Resume/Gate.antt =====
-- What `resume_approval` of src/packages/shared/remediation_orchestrator.py lets the mutation service
-- do.
use akesis.Common.{
  String, ◌≡◌, ◌≢◌, Bool, false, not, Option, none, some, arith, eq_iff, ◌==◌, nat_eq, string_eq,
}
use akesis.Domain.{ApprovalRecord, ApprovalStatus, approval_eq, PipelineRecord}
use akesis.Runtime.{World, ErrorKind, raise_if, ok, raise_if}
use akesis.Runtime.Keeps.{
  Keeps, Timeless, keeps_rules, Keeps-check, Keeps-bind, Keeps-pure, Keeps-catch, Keeps-choose,
  Keeps-raise_if,
}
use akesis.Database.Table.Stores.{Stores, select_one-Keeps}
use akesis.Database.Approvals.{get_approval}
use akesis.Database.Pipelines.{pipelines}
use akesis.Database.Pipelines.Stores.{update-Keeps, by_incident-Keeps, by_approval-Keeps}
use akesis.Mutation.Preflight.{IsCleared}
use akesis.Services.{Services, Json}
use akesis.Resume.{
  Restored, verify_restored, restore, deliver, execute, refuse, follow, find_pipeline,
  with_pipeline, with_approval, resume_approval,
}

verify_restored-IsCleared :
    (a : ApprovalRecord) (r : Restored) (w : World)
    → a.status ≡ ApprovalStatus.approved
    → (verify_restored a r w).0 ≡ ok tt
    → IsCleared r.context r.proposal r.validation a
unfolding verify_restored
verify_restored-IsCleared a r w s h = record {
  valid = ground arith;
  proposed = ground arith;
  passed = ground arith;
  exit_zero = ground arith;
  approved = s;
  same_proposal = ground (arith, eq_iff a.proposal_id r.proposal.proposal_id);
  same_commit = ground (arith, eq_iff a.commit_sha r.proposal.commit_sha);
  same_base = ground (arith, eq_iff r.context.commit_sha r.proposal.commit_sha);
}

verify_restored-Keeps :
    {P : World → Type 0} (a : ApprovalRecord) (r : Restored) → Keeps P (verify_restored a r)
unfolding verify_restored
verify_restored-Keeps a r = search keeps_rules depth 20

checked :
    (c : Bool) (k : ErrorKind) (m : String) (w : World) → (raise_if c k m w).0 ≡ ok tt → c ≡ false
checked c k m w h = ground arith

is_approved :
    (s : ApprovalStatus) → not (s == ApprovalStatus.approved) ≡ false → s ≡ ApprovalStatus.approved
is_approved s h = ground arith

get-Keeps : {P : World → Type 0} (id : String) → Keeps P (get_approval id)
unfolding get_approval
get-Keeps id = search select_one-Keeps

module _ (services : Services) (json : Json) where
  restore-Keeps : {P : World → Type 0} (p : PipelineRecord) → Keeps P (restore services json p)
  unfolding restore
  restore-Keeps p = search keeps_rules depth 20

  module _ {P : World → Type 0} (t : Timeless P) (s : Stores pipelines P) where
    deliver-Keeps :
        (a : ApprovalRecord) (p : PipelineRecord) (r : Restored)
        → Keeps P (services.create_pull_request r.context r.proposal r.validation a)
        → Keeps P (deliver services json a p r)
    unfolding deliver
    deliver-Keeps a p r h =
        Keeps-catch _ _ (Keeps-bind _ _ h (λ m. search (keeps_rules, update-Keeps, t, s)))
          (λ e. search (keeps_rules, update-Keeps, t, s))

    module _ (a : ApprovalRecord)
        (creates : (r : Restored)
          → IsCleared r.context r.proposal r.validation a
          → Keeps P (services.create_pull_request r.context r.proposal r.validation a)) where
      execute-Keeps :
          (p : PipelineRecord)
          → a.status ≡ ApprovalStatus.approved
          → Keeps P (execute services json a p)
      unfolding execute
      execute-Keeps p h = Keeps-bind _ _ (restore-Keeps p) (λ r.
          Keeps-check _ _ (verify_restored-Keeps a r) (λ w u e.
            Keeps-bind _ _ (update-Keeps t s _ _ _)
              (λ _. deliver-Keeps a p r (creates r (verify_restored-IsCleared a r w h e)))))

      refuse-Keeps : (p : PipelineRecord) → Keeps P (refuse services json a p)
      unfolding refuse
      refuse-Keeps p = search (keeps_rules, update-Keeps, t, s)

      follow-Keeps : (p : PipelineRecord) → Keeps P (follow services json a p)
      unfolding follow
      follow-Keeps p = Keeps-choose _ _ _ (Keeps-pure p) (
          Keeps-choose _ _ _ (refuse-Keeps p) (
            Keeps-check _ _ (Keeps-raise_if _ _ _)
              (λ w u e. execute-Keeps p (is_approved a.status (checked _ _ _ w e)))))

      with_pipeline-Keeps :
          (id : String) (p : Option PipelineRecord) → Keeps P (with_pipeline services json id a p)
      unfolding with_pipeline
      with_pipeline-Keeps id none = search keeps_rules
      with_pipeline-Keeps id (some p) = follow-Keeps p

      find-Keeps : (p : Option PipelineRecord) → Keeps P (find_pipeline services json a p)
      unfolding find_pipeline
      find-Keeps none = by_incident-Keeps a.incident_id
      find-Keeps (some p) = Keeps-pure (some p)

      found-Keeps : (id : String) → Keeps P (with_approval services json id (some a))
      unfolding with_approval
      found-Keeps id = search (keeps_rules, by_approval-Keeps, find-Keeps, with_pipeline-Keeps)

    -- Any invariant of the system that says nothing of the clock and of the pipelines' table is kept
    -- by `resume_approval`, whatever it returns or raises, if `create_pull_request` keeps it wherever
    -- it is called with an approval in state `approved` for this very proposal and commit, a valid
    -- proposal in state `proposed`, and a validation that passed with exit code 0.
    pub resume_approval-Gate :
        ((a : ApprovalRecord) (r : Restored)
          → IsCleared r.context r.proposal r.validation a
          → Keeps P (services.create_pull_request r.context r.proposal r.validation a))
        → (approval_id : String) (w : World) → P w
        → P (resume_approval services json approval_id w).1
    unfolding resume_approval with_approval
    resume_approval-Gate creates id = (Keeps-bind _ _ (get-Keeps id) (λ o. after-Keeps o)).after
      where
        after-Keeps : (o : Option ApprovalRecord) → Keeps P (with_approval services json id o)
        after-Keeps none = search keeps_rules
        after-Keeps (some a) = found-Keeps a (creates a) id

    -- Where the stored approval is not in state `approved`, `resume_approval` keeps any invariant
    -- that says nothing of the clock and of the pipelines' table: it delivers nothing.
    pub resume_approval-unapproved :
        (approval_id : String) (a : ApprovalRecord) (w : World)
        → get_approval approval_id w ≡ (ok (some a), w)
        → a.status ≢ ApprovalStatus.approved
        → P w
        → P (resume_approval services json approval_id w).1
    unfolding resume_approval
    resume_approval-unapproved id a w e n p =
        rw e ((found-Keeps a (λ r c. elim (n c.approved) [ ]) id).after w p)
