-- ===== src/Orchestrator/Settles.antt =====
-- How `process_failure` of src/packages/shared/remediation_orchestrator.py ends.
use akesis.Common.{
  suc, ◌≡◌, refl, ap, ◌∙◌, Bool, true, false, ◌||◌, none, some, List, [], ◌∷◌, ◌++◌, eq_refl,
  nat_eq, string_eq, any, select, update,
}
use akesis.Domain.{
  FailureContext, DiagnosticResult, EvidencePackage, FixProposal, ValidationResult, PipelineRecord,
  PipelineStatus, Datetime,
}
use akesis.Config.{Python}
use akesis.Runtime.{World, M, Result, ok, err, ◌>>=◌, choose}
use akesis.Runtime.Keeps.{Keeps}
use akesis.Runtime.Post.{Post, bind-Post, catch-Post, Post-imp}
use akesis.Database.Table.{
  select_one, one_or_none, insert_row, select-append, select_none_of_any_or,
  select_none_of_any_or_right,
}
use akesis.Database.Table.Unique.{select-update_unique, update_one_unique}
use akesis.Database.Pipelines.{
  pipelines, has_id, has_incident, Changes, change, update_pipeline_state, create_pipeline,
  get_by_incident_id,
}
use akesis.Services.{Services, Json, AllKeep}
use akesis.Orchestrator.{
  pipeline_id_of, finish, authorize, validate, propose, resolve, stages, guarded, unless_exists,
  process_failure, new_pipeline,
}

-- a human, or nobody, has to act next
abbrev pub is_settled : PipelineStatus → Bool
is_settled PipelineStatus.awaiting_approval = true
is_settled PipelineStatus.rejected = true
is_settled PipelineStatus.failed = true
is_settled _ = false

module _ (services : Services) (json : Json) (python : Python) (context : FailureContext) where
  abbrev rows : World → List PipelineRecord
  rows w = select (has_id (pipeline_id_of context)) w.pipelines

  -- the pipeline has one row
  record HasRow (w : World) : Type 0 where
    row : PipelineRecord
    found : rows w ≡ row ∷ []

  -- the record is the pipeline's row, and settled
  abbrev pub Ends : PipelineRecord → World → Type 0
  Ends r w = (is_settled r.status ≡ true) × (rows w ≡ r ∷ [])

  changed : PipelineStatus → Changes → World → PipelineRecord → PipelineRecord
  changed status c w = change (w.times w.reads) status c

  stored : PipelineStatus → Changes → World → World
  unfolding changed
  stored status c w = record w {
    reads = suc w.reads;
    pipelines = update (has_id (pipeline_id_of context)) (changed status c w) w.pipelines;
  }

  update-one :
      (status : PipelineStatus) (c : Changes) (w : World) (r : PipelineRecord)
      → rows w ≡ r ∷ []
      → update_pipeline_state (pipeline_id_of context) status c w
        ≡ (ok (some (changed status c w r)), stored status c w)
  unfolding update_pipeline_state changed stored
  update-one status c w r e =
      update_one_unique pipelines (has_id (pipeline_id_of context)) (changed status c w)
        (record w { reads = suc w.reads }) r e

  stored-rows :
      (status : PipelineStatus) (c : Changes) (w : World) (r : PipelineRecord)
      → rows w ≡ r ∷ []
      → rows (stored status c w) ≡ changed status c w r ∷ []
  unfolding stored changed
  stored-rows status c w r e =
      select-update_unique (has_id (pipeline_id_of context)) (changed status c w) w.pipelines r
        (λ y. refl) e

  -- an action of the stages: it ends settled, or raises where the pipeline has its row
  record Safe (m : M PipelineRecord) : Type 0 where
    ends : (w : World) → HasRow w → Post Ends (λ _ w'. HasRow w') (m w)

  -- a call, or an update, that a stage goes on from
  record Calm {A : Type 0} (m : M A) : Type 0 where
    stays : (w : World) → HasRow w → Post (λ _ w'. HasRow w') (λ _ w'. HasRow w') (m w)

  Safe-bind :
      {A : Type 0} (m : M A) (f : A → M PipelineRecord)
      → Calm m
      → ((a : A) → Safe (f a))
      → Safe (m >>= f)
  Safe-bind m f c k = record {
    ends = λ w h. bind-Post _ _ _ _ f m w (c.stays w h) (λ a v. (k a).ends v) (λ e v g. g);
  }

  Safe-choose : (b : Bool) (m n : M PipelineRecord) → Safe m → Safe n → Safe (choose b m n)
  Safe-choose true m n c d = c
  Safe-choose false m n c d = d

  Calm-update :
      (status : PipelineStatus) (c : Changes)
      → Calm (update_pipeline_state (pipeline_id_of context) status c)
  Calm-update status c = record {
    stays = λ w h.
        rw (update-one status c w h.row h.found)
          (record { row = changed status c w h.row; found = stored-rows status c w h.row h.found });
  }

  -- a service that leaves the pipelines alone
  Calm-Keeps :
      {A : Type 0} (m : M A)
      → ((ps : List PipelineRecord) → Keeps (λ w. w.pipelines ≡ ps) m)
      → Calm m
  Calm-Keeps m k = record {
    stays = λ w h.
        stay (m w) h.row
          (ap (select (has_id (pipeline_id_of context))) ((k w.pipelines).after w refl) ∙ h.found);
  }
    where
      stay :
          {A : Type 0} (r : Result A × World) (row : PipelineRecord)
          → rows r.1 ≡ row ∷ []
          → Post (λ _ w'. HasRow w') (λ _ w'. HasRow w') r
      stay (ok a, w) row e = record { row = row; found = e }
      stay (err x, w) row e = record { row = row; found = e }

  module _ (received : PipelineRecord) where
    finish-Ends :
        (status : PipelineStatus) (c : Changes) (w : World)
        → is_settled status ≡ true
        → HasRow w
        → Post Ends (λ _ _. ⊥) (finish services json python context received status c w)
    unfolding finish changed
    finish-Ends status c w s h =
        rw (update-one status c w h.row h.found) (s, stored-rows status c w h.row h.found)

    Safe-finish :
        (status : PipelineStatus) (c : Changes)
        → is_settled status ≡ true
        → Safe (finish services json python context received status c)
    Safe-finish status c s = record {
      ends = λ w h.
          Post-imp Ends (λ _ _. ⊥) Ends (λ _ v. HasRow v)
            (finish services json python context received status c w) (finish-Ends status c w s h)
            (λ a v e. e) (λ e v (x : ⊥). elim x [ ]);
    }

    ruleset stage_rules = (Safe-bind, Safe-choose, Safe-finish, Calm-update, Calm-Keeps, refl)

    module _ (quiet : (ps : List PipelineRecord) → AllKeep services (λ w. w.pipelines ≡ ps)) where
      Calm-requests :
          (c : FailureContext) (p : FixProposal) (v : ValidationResult)
          → Calm (services.request_approval c p v)
      Calm-requests c p v = Calm-Keeps _ (λ ps. (quiet ps).requests c p v)

      Calm-validates : (p : FixProposal) (c : FailureContext) → Calm (services.validate_fix p c)
      Calm-validates p c = Calm-Keeps _ (λ ps. (quiet ps).validates p c)

      Calm-generates :
          (c : FailureContext) (e : EvidencePackage) (d : DiagnosticResult)
          → Calm (services.generate_fix_proposal c e d)
      Calm-generates c e d = Calm-Keeps _ (λ ps. (quiet ps).generates c e d)

      Calm-resolves : (c : FailureContext) → Calm (services.resolve_context c)
      Calm-resolves c = Calm-Keeps _ (λ ps. (quiet ps).resolves c)

      Calm-diagnoses : (c : FailureContext) → Calm (services.diagnose_failure c)
      Calm-diagnoses c = Calm-Keeps _ (λ ps. (quiet ps).diagnoses c)

      authorize-Safe :
          (p : FixProposal) (v : ValidationResult)
          → Safe (authorize services json python context received p v)
      unfolding authorize
      authorize-Safe p v = search (stage_rules, Calm-requests)

      validate-Safe : (p : FixProposal) → Safe (validate services json python context received p)
      unfolding validate
      validate-Safe p = search (stage_rules, Calm-validates, authorize-Safe)

      propose-Safe :
          (d : DiagnosticResult) (e : EvidencePackage)
          → Safe (propose services json python context received d e)
      unfolding propose
      propose-Safe d e = search (stage_rules, Calm-generates, validate-Safe)

      resolve-Safe : (d : DiagnosticResult) → Safe (resolve services json python context received d)
      unfolding resolve
      resolve-Safe d = search (stage_rules, Calm-resolves, propose-Safe)

      stages-Safe : Safe (stages services json python context received)
      unfolding stages
      stages-Safe = search (stage_rules, Calm-diagnoses, resolve-Safe)

      guarded-Ends :
          (w : World)
          → HasRow w
          → Post Ends (λ _ _. ⊥) (guarded services json python context received w)
      unfolding guarded
      guarded-Ends w h =
          catch-Post Ends (λ _ v. HasRow v) Ends (λ _ _. ⊥)
            (stages services json python context received) _ w (stages-Safe.ends w h) (λ a v e. e)
            (λ e v g. finish-Ends PipelineStatus.failed _ v refl g)

  created : Datetime → World → World
  created t w = record w {
    pipelines = w.pipelines ++ new_pipeline services json python t context ∷ [];
  }

  absent :
      (w : World)
      → select (has_incident context.incident_id) w.pipelines ≡ []
      → get_by_incident_id context.incident_id w ≡ (ok none, w)
  unfolding get_by_incident_id select_one one_or_none
  absent w e = rw e refl

  create-new :
      (t : Datetime) (w : World)
      → any
          (λ r. has_id (pipeline_id_of context) r || has_incident context.incident_id r)
          w.pipelines
        ≡ false
      → create_pipeline (new_pipeline services json python t context) w
        ≡ (ok (new_pipeline services json python t context), created t w)
  unfolding create_pipeline insert_row created
  create-new t w h = rw h refl

  created-HasRow : (t : Datetime) (w : World) → rows w ≡ [] → HasRow (created t w)
  unfolding created
  created-HasRow t w e = record {
    row = new_pipeline services json python t context;
    found =
        rw
          (
            select-append (has_id (pipeline_id_of context)) w.pipelines
                (new_pipeline services json python t context ∷ []),
            e,
            eq_refl (pipeline_id_of context),
          )
          refl;
  }

  -- Where no pipeline has the incident's id or the pipeline's, and the services leave the pipelines'
  -- table alone, `process_failure` returns, whatever the services answer or raise: the record that it
  -- returns is the pipeline's one row, in state `awaiting_approval`, `rejected` or `failed`.
  pub process_failure-Ends :
      ((ps : List PipelineRecord) → AllKeep services (λ w. w.pipelines ≡ ps))
      → (w : World)
      → any
          (λ r. has_id (pipeline_id_of context) r || has_incident context.incident_id r)
          w.pipelines
        ≡ false
      → Post Ends (λ _ _. ⊥) (process_failure services json python context w)
  unfolding process_failure unless_exists
  process_failure-Ends quiet w h =
      let t = w.times w.reads in
      let v = record w { reads = suc w.reads } in
      rw
        (
          absent v (
              select_none_of_any_or_right (has_id (pipeline_id_of context))
                (has_incident context.incident_id) w.pipelines h),
          create-new t v h,
        )
        (guarded-Ends (new_pipeline services json python t context) quiet (created t v) (
          created-HasRow t v (
            select_none_of_any_or (has_id (pipeline_id_of context))
              (has_incident context.incident_id) w.pipelines h)))
