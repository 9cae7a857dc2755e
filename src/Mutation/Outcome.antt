-- ===== src/Mutation/Outcome.antt =====
-- What `create_pull_request` of src/packages/shared/mutation_service.py returns.
use akesis.Common.{
  suc, String, ◌≡◌, refl, inl, inr, Bool, true, false, Option, none, some, arith, nat_eq, string_eq,
}
use akesis.Domain.{
  ApprovalRecord, MutationRecord, MutationStatus, Datetime, FailureContext, FixProposal,
  ValidationResult, is_pr_created,
}
use akesis.Config.{Python}
use akesis.Runtime.{World, M, Result, ok, err, ◌>>=◌, pure, choose, continue}
use akesis.Runtime.Post.{Post}
use akesis.Database.Table.Unique.{update_one-cases}
use akesis.Database.Mutations.{mutations, Changes, update_status, change, has_id}
use akesis.Workspace.{PullRequest, GitHubClient, Git}
use akesis.Validation.{SandboxRunner, RepoCheckout}
use akesis.Mutation.{
  create_pull_request, resume_or_start, start, adopt, deliver, open_pull_request, finalized,
}

-- If the action returns, it returns a delivered mutation.
record Yields (m : M MutationRecord) : Type 0 where
  yields : (w : World) → Post (λ r _. r.status ≡ MutationStatus.pr_created) (λ _ _. Unit {0}) (m w)

Yields-pure : (r : MutationRecord) → r.status ≡ MutationStatus.pr_created → Yields (pure r)
Yields-pure r h = record { yields = λ w. h }

continue-Yields :
    {A : Type 0} (x : Result A × World) (f : A → M MutationRecord)
    → ((a : A) → Yields (f a))
    → Post (λ r _. r.status ≡ MutationStatus.pr_created) (λ _ _. Unit {0}) (continue x f)
continue-Yields (ok a, w) f k = (k a).yields w
continue-Yields (err e, w) f k = tt

Yields-bind :
    {A : Type 0} (m : M A) (f : A → M MutationRecord) → ((a : A) → Yields (f a)) → Yields (m >>= f)
Yields-bind m f k = record { yields = λ w. continue-Yields (m w) f k }

ruleset yields_rules = (Yields-pure, Yields-bind, refl)

is_delivered : (s : MutationStatus) → is_pr_created s ≡ true → s ≡ MutationStatus.pr_created
is_delivered s h = ground arith

module _ (github : GitHubClient) (git : Git) (checkout : RepoCheckout) (sandbox : SandboxRunner)
    (python : Python) (context : FailureContext) (proposal : FixProposal)
    (validation : ValidationResult) (approval : ApprovalRecord) where
  finish-Yields :
      (id : String) (c : Changes)
      → Yields (
          update_status id MutationStatus.pr_created c
          >>= finalized github git checkout sandbox python context proposal validation approval id)
  unfolding update_status finalized
  finish-Yields id c = record {
    yields = λ w.
        let v = record w { reads = suc w.reads } in
        let f = change (w.times w.reads) MutationStatus.pr_created c in
        elim (update_one-cases mutations (has_id id) f v) [
          | inl e ↦ rw e tt
          | inr (inl (r, e)) ↦ rw e refl
          | inr (inr (x, e)) ↦ rw e tt
        ];
  }

  open-Yields :
      (id sha : String)
      → Yields (
          open_pull_request github git checkout sandbox python context proposal validation approval
            id sha)
  unfolding open_pull_request
  open-Yields id sha = search (yields_rules, finish-Yields)

  deliver-Yields :
      (id : String)
      → Yields (deliver github git checkout sandbox python context proposal validation approval id)
  unfolding deliver
  deliver-Yields id = search (yields_rules, open-Yields) depth 20

  start-Yields :
      (id : String) (t : Datetime) (pr : Option PullRequest)
      → Yields
          (start github git checkout sandbox python context proposal validation approval id t pr)
  unfolding start adopt
  start-Yields id t none = search (yields_rules, deliver-Yields)
  start-Yields id t (some pr) = search yields_rules

  Yields-choose :
      (c : Bool) (m n : M MutationRecord) → (c ≡ true → Yields m) → Yields n → Yields (choose c m n)
  Yields-choose true m n h k = h refl
  Yields-choose false m n h k = k

  resume_or_start-Yields :
      (id : String) (t : Datetime) (o : Option MutationRecord)
      → Yields (
          resume_or_start github git checkout sandbox python context proposal validation approval id
            t o)
  unfolding resume_or_start
  resume_or_start-Yields id t none = search (yields_rules, start-Yields)
  resume_or_start-Yields id t (some m) =
      Yields-choose _ _ _ (λ h. Yields-pure m (is_delivered m.status h))
        (search (yields_rules, start-Yields))

  create-Yields :
      Yields (
        create_pull_request github git checkout sandbox python context proposal validation approval)
  unfolding create_pull_request
  create-Yields = search (yields_rules, resume_or_start-Yields) depth 20

  -- Whatever git, GitHub and the sandbox answer: a call that returns, and does not raise, returns a
  -- mutation in state `pr_created`.
  pub create_pull_request-Yields :
      (w : World)
      → Post
          (λ r _. r.status ≡ MutationStatus.pr_created)
          (λ _ _. Unit {0})
          (create_pull_request github git checkout sandbox python context proposal validation
            approval w)
  create_pull_request-Yields = create-Yields.yields
