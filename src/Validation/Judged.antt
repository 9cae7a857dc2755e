-- ===== src/Validation/Judged.antt =====
-- Which runs `validate_fix` of src/packages/shared/validation_service.py passes, and what it raises.
use akesis.Common.{
  ℕ, zero, suc, ◌-◌, String, ◌≡◌, ◌≢◌, refl, sym, ◌∙◌, ◌↔◌, ◌⊎◌, inl, inr, true, false, Option,
  none, some, arith, nat_eq, string_eq, is_blank, Bool-cases, Option-cases,
}
use akesis.Domain.{
  FailureContext, FixProposal, ValidationResult, ValidationStatus, ℤ, ValidationCommand, Datetime,
  ProposalStatus,
}
use akesis.Runtime.{World, Result, ok, err, Error, ErrorKind}
use akesis.Runtime.Post.{Post}
use akesis.Validation.Passing.{select_total}
use akesis.Validation.{
  SandboxRunner, RepoCheckout, ValidationExecutionResult, validate_fix, select_validation_command,
  is_ready, run_in, after_run, after_checkout, with_command, conclude, Outcome, checkout_failed,
  completed, caught, status_of, is_checkout_error,
}

-- The run ended in time with exit code 0.
pub record IsClean (x : ValidationExecutionResult) : Type 0 where
  pub in_time : x.timed_out ≡ false
  pub exit_zero : x.exit_code ≡ some (ℤ.pos zero)

status_of-IsClean :
    (x : ValidationExecutionResult) → (status_of x ≡ ValidationStatus.passed) ↔ IsClean x
status_of-IsClean x = (
  (λ h. record { in_time = ground arith; exit_zero = ground arith }),
  (λ c. ground (arith, c.in_time, c.exit_zero)),
)

caught-status :
    (command : ValidationCommand) (n : ℕ) (e : Error)
    → (caught command n e).status ≢ ValidationStatus.passed
unfolding caught
caught-status command n e h = ground arith

module _ (sandbox : SandboxRunner) (checkout : RepoCheckout) (proposal : FixProposal)
    (context : FailureContext) where
  -- The directory that the command runs in, given or checked out, and the moment of its run.
  abbrev pub IsSource : Option String → World → String → ℕ → Type 0
  IsSource repo_root w dir moment =
      ((repo_root ≡ some dir) × (moment ≡ suc w.reads))
      ⊎ ((repo_root ≡ none)
          × (checkout.checkout_commit context.repository_owner context.repository_name
                proposal.commit_sha (suc w.reads)
              ≡ ok dir)
          × (moment ≡ suc (suc w.reads)))

  -- The sandbox ran the command in the directory on the proposal's diff, to a clean end.
  abbrev pub HasRun : String → ValidationCommand → ℕ → Type 0
  HasRun dir command moment =
      (x : ValidationExecutionResult) × (sandbox.run_validation dir proposal.unified_diff command
          moment
        ≡ ok x)
      × IsClean x

  -- The proposal may be validated, and its one run was clean.
  pub record IsPassing (repo_root : Option String) (w : World) : Type 0 where
    pub valid : proposal.is_valid ≡ true
    pub proposed : proposal.status ≡ ProposalStatus.proposed
    pub has_diff : is_blank proposal.unified_diff ≡ false
    pub command : ValidationCommand
    pub dir : String
    pub moment : ℕ
    pub selected : select_validation_command context ≡ some command
    pub source : IsSource repo_root w dir moment
    pub run : HasRun dir command moment

  -- A result about the proposal, which is a pass exactly in this case; only the clock has moved.
  pub record Judges (Passing : Type 0) (w : World) (r : ValidationResult) (w' : World)
      : Type 0 where
    pub same_proposal : r.proposal_id ≡ proposal.proposal_id
    pub same_incident : r.incident_id ≡ context.incident_id
    pub same_commit : r.commit_sha ≡ proposal.commit_sha
    pub judged : (r.status ≡ ValidationStatus.passed) ↔ Passing
    pub later : w' ≡ record w { reads = w'.reads }

  -- No directory was given, and checking one out failed with an error of another class.
  abbrev pub IsUnchecked : Option String → World → Error → World → Type 0
  IsUnchecked repo_root w e w' =
      (repo_root ≡ none)
      × (checkout.checkout_commit context.repository_owner context.repository_name
            proposal.commit_sha (suc w.reads)
          ≡ err e)
      × (e.kind ≢ ErrorKind.checkout)
      × (w' ≡ record w { reads = w'.reads })

  Judges-iff :
      {C D : Type 0} (w : World) (E : Error → World → Type 0) (r : Result ValidationResult × World)
      → C ↔ D
      → Post (Judges C w) (λ _ _. ⊥) r
      → Post (Judges D w) E r
  Judges-iff w E (ok r, w') c h = record {
    same_proposal = h.same_proposal;
    same_incident = h.same_incident;
    same_commit = h.same_commit;
    judged = ((λ p. c.0 (h.judged.0 p)), (λ d. h.judged.1 (c.1 d)));
    later = h.later;
  }
  Judges-iff w E (err e, w') c h = elim h [ ]

  conclude-Judges :
      {C : Type 0} (o : Outcome) (w : World) (n : ℕ)
      → (o.status ≡ ValidationStatus.passed) ↔ C
      → Post
          (Judges C w)
          (λ _ _. ⊥)
          (conclude sandbox checkout proposal context o (record w { reads = n }))
  unfolding conclude
  conclude-Judges o w n c = record {
    same_proposal = refl;
    same_incident = refl;
    same_commit = refl;
    judged = c;
    later = refl;
  }

  ok-same : (x y : ValidationExecutionResult) → ok x ≡ ok y → x ≡ y
  ok-same x y e = cc

  after_run-Judges :
      (command : ValidationCommand) (start : Datetime) (w : World) (n : ℕ)
      (ran : Result ValidationExecutionResult)
      → Post
          (Judges ((x : ValidationExecutionResult) × (ran ≡ ok x) × IsClean x) w)
          (λ _ _. ⊥)
          (after_run sandbox checkout proposal context command start ran (record w { reads = n }))
  unfolding after_run completed
  after_run-Judges command start w n (ok x) = conclude-Judges (completed command x) w n (
    (λ h. (x, refl, (status_of-IsClean x).0 h)),
    (λ (y, e, clean). (status_of-IsClean x).1 (rw (ok-same x y e) clean)),
  )
  after_run-Judges command start w n (err e) =
      conclude-Judges (caught command (w.times n - start) e) w (suc n) (
        (λ h. elim (caught-status command (w.times n - start) e h) [ ]),
        (λ (y, same, clean). ground arith),
      )

  run_in-Judges :
      (command : ValidationCommand) (start : Datetime) (w : World) (n : ℕ) (dir : String)
      → Post
          (Judges (HasRun dir command n) w)
          (λ _ _. ⊥)
          (run_in sandbox checkout proposal context command start dir (record w { reads = n }))
  unfolding run_in
  run_in-Judges command start w n dir =
      after_run-Judges command start w (suc n)
        (sandbox.run_validation dir proposal.unified_diff command n)

  source_unique :
      (root : Option String) (w : World) (d e : String) (m n : ℕ)
      → IsSource root w d m
      → IsSource root w e n
      → (d ≡ e) × (m ≡ n)
  source_unique root w d e m n (inl a) (inl b) =
      (let k : some d ≡ some e = sym a.0 ∙ b.0 in cc, a.1 ∙ sym b.1)
  source_unique root w d e m n (inl a) (inr b) = let k : some d ≡ none = sym a.0 ∙ b.0 in cc
  source_unique root w d e m n (inr a) (inl b) = let k : some e ≡ none = sym b.0 ∙ a.0 in cc
  source_unique root w d e m n (inr a) (inr b) =
      let k : ok d ≡ ok e = sym a.1 ∙ b.1 in (cc, a.2 ∙ sym b.2)

  is_ready-parts :
      is_ready proposal ≡ true
      → (proposal.is_valid ≡ true)
        × (proposal.status ≡ ProposalStatus.proposed)
        × (is_blank proposal.unified_diff ≡ false)
  is_ready-parts h = (ground arith, ground arith, ground arith)

  run-IsPassing :
      (root : Option String) (w : World) (command : ValidationCommand) (dir : String) (n : ℕ)
      → is_ready proposal ≡ true
      → select_validation_command context ≡ some command
      → IsSource root w dir n
      → HasRun dir command n ↔ IsPassing root w
  run-IsPassing root w command dir n ready selected source =
      let parts = is_ready-parts ready in
      (
        (λ run. record {
          valid = parts.0;
          proposed = parts.1;
          has_diff = parts.2;
          command = command;
          dir = dir;
          moment = n;
          selected = selected;
          source = source;
          run = run;
        }),
        (λ p.
            let same = source_unique root w dir p.dir n p.moment source p.source in
            let k : some command ≡ some p.command = sym selected ∙ p.selected in
            let c : command ≡ p.command = cc in rw (same.0, same.1, c) p.run),
      )

  no_source :
      (x : Error) (w : World) (dir : String) (n : ℕ)
      → checkout.checkout_commit context.repository_owner context.repository_name
          proposal.commit_sha
          (suc w.reads)
        ≡ err x
      → IsSource none w dir n
      → ⊥
  no_source x w dir n e (inl a) = ground arith
  no_source x w dir n e (inr a) = let k : ok dir ≡ err x = sym a.1 ∙ e in ground arith

  checked_out-Judges :
      (command : ValidationCommand) (start : Datetime) (w : World)
      → is_ready proposal ≡ true
      → select_validation_command context ≡ some command
      → (found : Result String)
      → checkout.checkout_commit context.repository_owner context.repository_name
          proposal.commit_sha
          (suc w.reads)
        ≡ found
      → Post (Judges (IsPassing none w) w) (IsUnchecked none w) (
          after_checkout sandbox checkout proposal context command start found
            (record w { reads = suc (suc w.reads) }))
  unfolding after_checkout checkout_failed conclude
  checked_out-Judges command start w ready selected (ok dir) e =
      Judges-iff w _ _
        (run-IsPassing none w command dir (suc (suc w.reads)) ready selected (inr (refl, e, refl)))
        (run_in-Judges command start w (suc (suc w.reads)) dir)
  checked_out-Judges command start w ready selected (err x) e =
      elim (Bool-cases (is_checkout_error x)) [
        | inl own ↦ rw own (record {
          same_proposal = refl;
          same_incident = refl;
          same_commit = refl;
          judged = ((λ h. ground arith), (λ p. elim (no_source x w p.dir p.moment e p.source) [ ]));
          later = refl;
        })
        | inr other ↦ rw other (refl, e, (λ k. ground arith), refl)
      ]

  -- `validate_fix` raises only where no directory is given and the checkout raises an error that is
  -- not of the class RepositoryCheckoutError, and then that error. Otherwise it returns a result with
  -- the ids and the commit of the proposal, whose status is `passed` exactly if the proposal is valid,
  -- in state `proposed` and has a diff, and the sandbox ran the selected command on that diff, in the
  -- directory given or checked out, and the run ended in time with exit code 0. Nothing but the clock
  -- has moved.
  pub validate_fix-Judges :
      (repo_root : Option String) (w : World)
      → Post
          (Judges (IsPassing repo_root w) w)
          (IsUnchecked repo_root w)
          (validate_fix sandbox checkout proposal context repo_root w)
  unfolding validate_fix with_command conclude
  validate_fix-Judges repo_root w = elim (Bool-cases (is_ready proposal)) [
    | inl ready ↦ elim (Option-cases (select_validation_command context)) [
      | inl unselected ↦ elim (select_total context unselected) [ ]
      | inr (command, selected) ↦ rw (ready, selected) (with_root command ready selected repo_root)
    ]
    | inr unready ↦ rw unready (record {
      same_proposal = refl;
      same_incident = refl;
      same_commit = refl;
      judged = ((λ h. ground arith), (λ p. ground (arith, p.valid, p.proposed, p.has_diff)));
      later = refl;
    })
  ]
    where
      with_root :
          (command : ValidationCommand)
          → is_ready proposal ≡ true
          → select_validation_command context ≡ some command
          → (root : Option String)
          → Post (Judges (IsPassing root w) w) (IsUnchecked root w) (
              with_command sandbox checkout proposal context
                (some command)
                (w.times w.reads)
                root
                (record w { reads = suc w.reads }))
      with_root command ready selected (some dir) =
          Judges-iff w _ _
            (run-IsPassing (some dir) w command dir (suc w.reads) ready selected (inl (refl, refl)))
            (run_in-Judges command (w.times w.reads) w (suc w.reads) dir)
      with_root command ready selected none =
          checked_out-Judges command (w.times w.reads) w ready selected
            (checkout.checkout_commit context.repository_owner context.repository_name
              proposal.commit_sha (suc w.reads))
            refl
