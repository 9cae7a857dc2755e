-- ===== src/Diagnosis.antt =====
-- class DiagnosticService of src/packages/shared/diagnostic_service.py. The model client and the
-- context resolver are parameters, and the prompt that is built from the context and the evidence is
-- the two of them. Durations are differences of clock readings, and are not rounded.
pub mod Outcome
use akesis.Common.{
  ℕ, zero, suc, ◌+◌, ◌-◌, ◌*◌, ◌/◌, ◌%◌, ◌≤◌, ◌<◌, min, max, String, ◌≡◌, refl, sym, ap, ◌∙◌, ◌≢◌,
  ◌↔◌, ◌⊎◌, inl, inr, Bool, true, false, not, ◌&&◌, ◌||◌, Option, none, some, List, [], ◌∷◌, ◌++◌,
  map, arith, eq_iff, eq_refl, Eq, ◌==◌, nat_eq, string_eq, if◌then◌else◌, ltb, leb, Bool-cases,
  Option-cases, and-false, codes, keep, lower, starts, has_part, last_is, same_codes, is_some,
  or_else, length, is_empty, any, all, select, update, length-append, All, contains, dedupe, concat,
  join, prefix, is_blank, text_or, decimal,
}
use akesis.Domain.{
  Datetime, Score, max_score, FailureContext, EvidencePackage, EvidenceItem, RemediationDirection,
  DiagnosisProposal, DiagnosticResult, EvidenceSufficiency,
}
use akesis.Config.{Python}
use akesis.Runtime.{
  World, M, Result, ok, err, ErrorKind, Error, ◌>>=◌, ◌>>◌, pure, now, external, attempt,
}

-- `generate_structured` on the diagnosis prompt. A score outside 0.0 to 1.0 does not parse.
pub record DiagnosisModel : Type 0 where
  pub model_name : String
  pub diagnose : FailureContext → Option EvidencePackage → ℕ → Result DiagnosisProposal

pub record ContextResolver : Type 0 where
  pub resolve_context : FailureContext → ℕ → Result EvidencePackage

module _ (python : Python) where
  abbrev pub clamped : DiagnosisProposal → DiagnosisProposal
  clamped p = record p {
    confidence_score = python.round_score (max 0 (min max_score p.confidence_score));
  }

abbrev pub fallback_proposal : FailureContext → String → DiagnosisProposal
fallback_proposal context reason = record {
  category = context.signal.category;
  root_cause = concat ("Automated diagnosis unavailable. Reason: " ∷ reason ∷ []);
  evidence =
      record {
        source = "deterministic_signal";
        observation = concat (
            "Preliminary error: " ∷ context.signal.error_type ∷ " - " ∷ context.signal.message
            ∷ []);
        file_path = context.signal.target_file;
        line_number = context.signal.target_line;
      }
      ∷ [];
  target_file = context.signal.target_file;
  target_line = context.signal.target_line;
  remediation_direction = record {
    summary = "Manual engineer inspection required";
    suggested_action = "Review CI failure logs directly to identify the failure cause.";
    risk_assessment = "Automated remediation cannot proceed without confident diagnosis.";
  };
  is_fixable = false;
  confidence_score = 0;
  evidence_sufficiency = EvidenceSufficiency.insufficient;
  reasoning = "Fallback activated due to provider unavailability or validation failure.";
}

-- `LLMError`, or any other exception
abbrev pub reason_of : Error → String
reason_of e = elim e.kind [
  | ErrorKind.llm ↦ concat ("LLM Provider Error: " ∷ e.message ∷ [])
  | _ ↦ concat ("Diagnostic failure: " ∷ e.message ∷ [])
]

module _ (model : DiagnosisModel) (resolver : ContextResolver) (python : Python)
    (context : FailureContext) where
  -- the answer of the model, or the fallback; both are built when the clock is read again
  answer : Option EvidencePackage → Datetime → Result DiagnosisProposal → M DiagnosticResult
  answer evidence start (ok proposal) = do
    t ← now
    created ← now
    pure (record {
      incident_id = context.incident_id;
      proposal = clamped python proposal;
      human_review_required = true;
      model_name = model.model_name;
      execution_time_ms = t - start;
      evidence_package = evidence;
      created_at = created;
    })
  answer evidence start (err e) = do
    t ← now
    created ← now
    pure (record {
      incident_id = context.incident_id;
      proposal = fallback_proposal context (reason_of e);
      human_review_required = true;
      model_name = "deterministic-fallback";
      execution_time_ms = t - start;
      evidence_package = evidence;
      created_at = created;
    })

  diagnose_with : Datetime → Option EvidencePackage → M DiagnosticResult
  unfolding answer
  diagnose_with start evidence = do
    answered ← attempt (model.diagnose context evidence)
    answer evidence start answered

  -- `resolve_context` runs only where no evidence is given
  evidence_of : Option EvidencePackage → M (Option EvidencePackage)
  evidence_of (some evidence) = pure (some evidence)
  evidence_of none = do evidence ← external (resolver.resolve_context context); pure (some evidence)

  unfoldable pub diagnose_failure : Option EvidencePackage → M DiagnosticResult
  unfolding evidence_of diagnose_with
  diagnose_failure given = do
    start ← now
    evidence ← evidence_of given
    diagnose_with start evidence
