-- ===== src/Diagnosis/Outcome.antt =====
-- What `diagnose_failure` of src/packages/shared/diagnostic_service.py returns and raises.
use akesis.Common.{
  ℕ, suc, ◌-◌, min, max, arith, String, ◌≡◌, refl, ap, ◌⊎◌, inl, inr, true, false, Option, none,
  some, nat_eq, string_eq,
}
use akesis.Domain.{
  max_score, FailureContext, EvidencePackage, DiagnosisProposal, DiagnosticResult,
  EvidenceSufficiency,
}
use akesis.Config.{Python}
use akesis.Runtime.{World, Result, ok, err, Error}
use akesis.Runtime.Post.{Post}
use akesis.Diagnosis.{
  DiagnosisModel, ContextResolver, diagnose_failure, answer, diagnose_with, evidence_of,
}

zero-max : (x : ℕ) → max 0 x ≡ x
zero-max x = omega arith

-- A proposal that nothing can be fixed by: it repeats what the log says.
pub record IsFallback (context : FailureContext) (d : DiagnosisProposal) : Type 0 where
  pub not_fixable : d.is_fixable ≡ false
  pub no_confidence : d.confidence_score ≡ 0
  pub insufficient : d.evidence_sufficiency ≡ EvidenceSufficiency.insufficient
  pub category : d.category ≡ context.signal.category
  pub target_file : d.target_file ≡ context.signal.target_file
  pub target_line : d.target_line ≡ context.signal.target_line

module _ (model : DiagnosisModel) (resolver : ContextResolver) (python : Python)
    (context : FailureContext) where
  -- The proposal and the name of the model that an answer leads to.
  abbrev pub IsConcluded : Result DiagnosisProposal → DiagnosisProposal → String → Type 0
  IsConcluded (ok p) d name =
      (d ≡ record p { confidence_score = python.round_score (min max_score p.confidence_score) })
      × (name ≡ model.model_name)
  IsConcluded (err e) d name = IsFallback context d × (name ≡ "deterministic-fallback")

  -- The evidence is what was given, or what the resolver found.
  abbrev pub IsSupplied : Option EvidencePackage → World → EvidencePackage → Type 0
  IsSupplied given w evidence =
      (given ≡ some evidence)
      ⊎ ((given ≡ none) × (resolver.resolve_context context (suc w.reads) ≡ ok evidence))

  -- The result is for this incident, has to be reviewed, and is what the answer of the one request
  -- to the model leads to.
  pub record Concludes (given : Option EvidencePackage) (w : World) (r : DiagnosticResult)
      (w' : World) : Type 0 where
    pub evidence : EvidencePackage
    pub moment : ℕ
    pub same_incident : r.incident_id ≡ context.incident_id
    pub reviewed : r.human_review_required ≡ true
    pub kept : r.evidence_package ≡ some evidence
    pub supplied : IsSupplied given w evidence
    pub answered : Result DiagnosisProposal
    pub asked : model.diagnose context (some evidence) moment ≡ answered
    pub concluded : IsConcluded answered r.proposal r.model_name
    pub timed : r.execution_time_ms ≡ w.times (suc moment) - w.times w.reads
    pub later : w' ≡ record w { reads = w'.reads }

  -- The resolver raised, for want of evidence.
  abbrev pub IsUnresolved : Option EvidencePackage → World → Error → World → Type 0
  IsUnresolved given w e w' =
      (given ≡ none)
      × (resolver.resolve_context context (suc w.reads) ≡ err e)
      × (w' ≡ record w { reads = w'.reads })

  answer-Concludes :
      (given : Option EvidencePackage) (w : World) (evidence : EvidencePackage) (n : ℕ)
      → IsSupplied given w evidence
      → (answered : Result DiagnosisProposal) → model.diagnose context (some evidence) n ≡ answered
      → Post (Concludes given w) (IsUnresolved given w) (
          answer model resolver python context
            (some evidence)
            (w.times w.reads)
            answered
            (record w { reads = suc n }))
  unfolding answer
  answer-Concludes given w evidence n s (ok p) e = record {
    evidence = evidence;
    moment = n;
    same_incident = refl;
    reviewed = refl;
    kept = refl;
    supplied = s;
    answered = ok p;
    asked = e;
    concluded = (
      ap (λ x. record p { confidence_score = python.round_score x })
          (zero-max (min max_score p.confidence_score)),
      refl,
    );
    timed = refl;
    later = refl;
  }
  answer-Concludes given w evidence n s (err x) e = record {
    evidence = evidence;
    moment = n;
    same_incident = refl;
    reviewed = refl;
    kept = refl;
    supplied = s;
    answered = err x;
    asked = e;
    concluded = (
      record {
        not_fixable = refl;
        no_confidence = refl;
        insufficient = refl;
        category = refl;
        target_file = refl;
        target_line = refl;
      },
      refl,
    );
    timed = refl;
    later = refl;
  }

  resolved-Concludes :
      (w : World) (found : Result EvidencePackage)
      → resolver.resolve_context context (suc w.reads) ≡ found
      → Post
          (Concludes none w)
          (IsUnresolved none w)
          (diagnose_failure model resolver python context none w)
  unfolding diagnose_failure evidence_of diagnose_with
  resolved-Concludes w (ok evidence) e = rw e (
      answer-Concludes none w evidence (suc (suc w.reads)) (inr (refl, e))
        (model.diagnose context (some evidence) (suc (suc w.reads))) refl)
  resolved-Concludes w (err x) e = rw e (refl, e, refl)

  -- A diagnosis raises only where no evidence is given and the resolver raises, and then what the
  -- resolver raised. Otherwise it returns a result for the incident that has to be reviewed, with the
  -- evidence that was given or resolved: where the model answered, its proposal with the score held
  -- to at most 1.0 and rounded, under the model's name; where it raised, a proposal under the name
  -- of the fallback that is not fixable, has score 0 and insufficient evidence, and keeps the
  -- category and the target of the log. The time it took is from the start to the first reading of
  -- the clock after the answer, and nothing but the clock has moved.
  pub diagnose_failure-Concludes :
      (given : Option EvidencePackage) (w : World)
      → Post
          (Concludes given w)
          (IsUnresolved given w)
          (diagnose_failure model resolver python context given w)
  unfolding diagnose_failure evidence_of diagnose_with
  diagnose_failure-Concludes none w =
      resolved-Concludes w (resolver.resolve_context context (suc w.reads)) refl
  diagnose_failure-Concludes (some evidence) w =
      answer-Concludes (some evidence) w evidence (suc w.reads) (inl refl)
        (model.diagnose context (some evidence) (suc w.reads)) refl
