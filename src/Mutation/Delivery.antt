-- ===== src/Mutation/Delivery.antt =====
-- What a delivery, `create_pull_request` of src/packages/shared/mutation_service.py, can show to the
-- outside.
use akesis.Common.{
  String, ◌≡◌, refl, ap, Bool, Option, none, some, List, [], ◌∷◌, ◌++◌, nat_eq, string_eq, All,
}
use akesis.Domain.{
  ApprovalRecord, MutationRecord, FailureContext, FixProposal, ValidationResult, MutationStatus,
  ValidationStatus, Datetime,
}
use akesis.Config.{Python}
use akesis.Runtime.{World, ErrorKind, Effect, emit}
use akesis.Runtime.Keeps.{Keeps, Timeless, keeps_rules}
use akesis.Database.Table.Stores.{Stores, select_one-Keeps, update_one-Keeps, insert_row-Keeps}
use akesis.Database.Mutations.{
  mutations, create_mutation, get_by_proposal_and_commit, update_status, Changes,
}
use akesis.Workspace.{GitHubClient, Git}
use akesis.Branch.{generate_branch_name, validate_branch_name}
use akesis.Validation.{SandboxRunner, RepoCheckout}
use akesis.Mutation.{
  fail_if, open_workspace, apply_patch, commit, push, push_branch_safely, switch_branch,
  validate_before_push, verify_tree, adopt, create_pull_request, deliver, finalized,
  open_pull_request, resume_or_start, start, verify_preflight_invariants, PullRequest,
}
use akesis.Validation.Passing.{validate_fix-Keeps}

module _ (github : GitHubClient) (git : Git) (checkout : RepoCheckout) (sandbox : SandboxRunner)
    (python : Python) (context : FailureContext) (proposal : FixProposal)
    (validation : ValidationResult) (approval : ApprovalRecord) where
  -- A push of the generated branch, or a pull request from it.
  pub data IsOwn : Effect → Type 0 where
    own_push : IsOwn (
        Effect.branch_pushed context.repository_owner context.repository_name
          (generate_branch_name context.incident_id proposal.proposal_id))
    own_request : IsOwn (
        Effect.pr_opened context.repository_owner context.repository_name
          (generate_branch_name context.incident_id proposal.proposal_id)
          context.branch)

  -- The state differs from `old` by mutation rows and own effects.
  pub record Delivers (old : World) (w : World) : Type 0 where
    pub new : List Effect
    pub own : All IsOwn new
    pub effects : w.effects ≡ new ++ old.effects
    pub approvals : w.approvals ≡ old.approvals
    pub pipelines : w.pipelines ≡ old.pipelines

  module _ {old : World} where
    Delivers-Timeless : Timeless (Delivers old)
    Delivers-Timeless = record {
      later = λ w d. record {
        new = d.new;
        own = d.own;
        effects = d.effects;
        approvals = d.approvals;
        pipelines = d.pipelines;
      };
    }

    emit-Delivers : (e : Effect) → IsOwn e → Keeps (Delivers old) (emit e)
    emit-Delivers e h = record {
      after = λ w d. record {
        new = e ∷ d.new;
        own = (h, d.own);
        effects = ap (λ es. e ∷ es) d.effects;
        approvals = d.approvals;
        pipelines = d.pipelines;
      };
    }

    Delivers-Stores : Stores mutations (Delivers old)
    Delivers-Stores = record {
      stored = λ rows w d. record {
        new = d.new;
        own = d.own;
        effects = d.effects;
        approvals = d.approvals;
        pipelines = d.pipelines;
      };
    }

    update_status-Delivers :
        (id : String) (s : MutationStatus) (c : Changes)
        → Keeps (Delivers old) (update_status id s c)
    unfolding update_status
    update_status-Delivers id s c =
        search (keeps_rules, Delivers-Timeless, Delivers-Stores, update_one-Keeps)

    create_mutation-Delivers : (r : MutationRecord) → Keeps (Delivers old) (create_mutation r)
    unfolding create_mutation
    create_mutation-Delivers r = search (Delivers-Stores, insert_row-Keeps)

    get_by-Delivers : (p c : String) → Keeps (Delivers old) (get_by_proposal_and_commit p c)
    unfolding get_by_proposal_and_commit
    get_by-Delivers p c = search select_one-Keeps

    ruleset delivery_rules = (
      keeps_rules, Delivers-Timeless, update_status-Delivers, create_mutation-Delivers,
      get_by-Delivers,
    )

    fail_if-Delivers :
        (b : Bool) (id : String) (s : Option ValidationStatus) (k : ErrorKind) (m : String)
        → Keeps (Delivers old) (fail_if b id s k m)
    unfolding fail_if
    fail_if-Delivers b id s k m = search delivery_rules

    open_workspace-Delivers :
        (id : String)
        → Keeps (Delivers old) (
            open_workspace github git checkout sandbox python context proposal validation approval
              id)
    unfolding open_workspace
    open_workspace-Delivers id = search (delivery_rules, fail_if-Delivers)

    switch_branch-Delivers :
        Keeps
          (Delivers old)
          (switch_branch github git checkout sandbox python context proposal validation approval)
    unfolding switch_branch
    switch_branch-Delivers = search (delivery_rules)

    apply_patch-Delivers :
        (id : String)
        → Keeps
            (Delivers old)
            (apply_patch github git checkout sandbox python context proposal validation approval id)
    unfolding apply_patch
    apply_patch-Delivers id = search (delivery_rules, fail_if-Delivers) depth 12

    verify_tree-Delivers :
        (id : String)
        → Keeps
            (Delivers old)
            (verify_tree github git checkout sandbox python context proposal validation approval id)
    unfolding verify_tree
    verify_tree-Delivers id = search (delivery_rules, fail_if-Delivers)

    validate_before_push-Delivers :
        (id d : String)
        → Keeps (Delivers old) (
            validate_before_push github git checkout sandbox python context proposal validation
              approval id d)
    unfolding validate_before_push
    validate_before_push-Delivers id d =
        search (delivery_rules, fail_if-Delivers, validate_fix-Keeps)

    commit-Delivers :
        (id : String)
        → Keeps
            (Delivers old)
            (commit github git checkout sandbox python context proposal validation approval id)
    unfolding commit
    commit-Delivers id = search (delivery_rules)

    push_branch_safely-Delivers :
        Keeps (Delivers old) (
          push_branch_safely github git checkout sandbox python context proposal validation
            approval)
    unfolding push_branch_safely
    push_branch_safely-Delivers = search (delivery_rules, emit-Delivers, own_push) depth 12

    push-Delivers :
        (id : String)
        → Keeps
            (Delivers old)
            (push github git checkout sandbox python context proposal validation approval id)
    unfolding push
    push-Delivers id = search (delivery_rules, push_branch_safely-Delivers)

    finalized-Delivers :
        (id : String) (r : Option MutationRecord)
        → Keeps
            (Delivers old)
            (finalized github git checkout sandbox python context proposal validation approval id r)
    unfolding finalized
    finalized-Delivers id none = search delivery_rules
    finalized-Delivers id (some r) = search delivery_rules

    open_pull_request-Delivers :
        (id s : String)
        → Keeps (Delivers old) (
            open_pull_request github git checkout sandbox python context proposal validation
              approval id s)
    unfolding open_pull_request
    open_pull_request-Delivers id s =
        search (delivery_rules, finalized-Delivers, emit-Delivers, own_request) depth 20

    deliver-Delivers :
        (id : String)
        → Keeps
            (Delivers old)
            (deliver github git checkout sandbox python context proposal validation approval id)
    unfolding deliver
    deliver-Delivers id =
        search
          (
            delivery_rules, open_workspace-Delivers, switch_branch-Delivers, apply_patch-Delivers,
            verify_tree-Delivers, validate_before_push-Delivers, commit-Delivers, push-Delivers,
            open_pull_request-Delivers,
          )
          depth 20

    adopt-Delivers :
        (id : String) (t : Datetime) (pr : PullRequest)
        → Keeps
            (Delivers old)
            (adopt github git checkout sandbox python context proposal validation approval id t pr)
    unfolding adopt
    adopt-Delivers id t pr = search (delivery_rules) depth 20

    start-Delivers :
        (id : String) (t : Datetime) (pr : Option PullRequest)
        → Keeps
            (Delivers old)
            (start github git checkout sandbox python context proposal validation approval id t pr)
    unfolding start
    start-Delivers id t none = search (delivery_rules, deliver-Delivers)
    start-Delivers id t (some pr) = search (adopt-Delivers)

    resume_or_start-Delivers :
        (id : String) (t : Datetime) (m : Option MutationRecord)
        → Keeps (Delivers old) (
            resume_or_start github git checkout sandbox python context proposal validation approval
              id t m)
    unfolding resume_or_start
    resume_or_start-Delivers id t none = search (delivery_rules, start-Delivers)
    resume_or_start-Delivers id t (some m) = search (delivery_rules, start-Delivers) depth 12

    preflight-Delivers :
        Keeps (Delivers old) (verify_preflight_invariants context proposal validation approval)
    unfolding verify_preflight_invariants
    preflight-Delivers = search keeps_rules depth 20

    branch-Delivers : (name : String) → Keeps (Delivers old) (validate_branch_name name)
    unfolding validate_branch_name
    branch-Delivers name = search keeps_rules depth 12

    create_pull_request-Keeps : Keeps (Delivers old) (
        create_pull_request github git checkout sandbox python context proposal validation approval)
    unfolding create_pull_request
    create_pull_request-Keeps =
        search (delivery_rules, preflight-Delivers, branch-Delivers, resume_or_start-Delivers) depth
          20

  -- A call, whether it returns or raises, leaves the approvals and the pipelines as they were, and
  -- the outside sees nothing of it but pushes of the generated branch and pull requests from that
  -- branch to the branch of the failure.
  pub create_pull_request-Delivers :
      (w : World)
      → Delivers w
          (create_pull_request github git checkout sandbox python context proposal validation
            approval w).1
  create_pull_request-Delivers w =
      create_pull_request-Keeps.after w
        (record { new = []; own = tt; effects = refl; approvals = refl; pipelines = refl })
