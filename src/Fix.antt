-- ===== src/Fix.antt =====
-- class FixProposalService of src/packages/shared/fix_service.py. The model client is a parameter,
-- and the prompt that is built from the context, the diagnosis and the evidence is the three of them;
-- the patch validator of src/packages/shared/patch_validator.py is an interface, which Patch fills.
pub mod Outcome
use akesis.Common.{
  ℕ, zero, suc, ◌+◌, ◌-◌, ◌*◌, ◌/◌, ◌%◌, ◌≤◌, ◌<◌, min, max, String, ◌≡◌, refl, sym, ap, ◌∙◌, ◌≢◌,
  ◌↔◌, ◌⊎◌, inl, inr, Bool, true, false, not, ◌&&◌, ◌||◌, Option, none, some, List, [], ◌∷◌, ◌++◌,
  map, arith, eq_iff, eq_refl, Eq, ◌==◌, nat_eq, string_eq, if◌then◌else◌, ltb, leb, Bool-cases,
  Option-cases, and-false, codes, keep, lower, starts, has_part, last_is, same_codes, is_some,
  or_else, length, is_empty, any, all, select, update, length-append, All, contains, dedupe, concat,
  join, prefix, is_blank, text_or, decimal,
}
use mathlib.Core.Option
use akesis.Domain.{
  Datetime, Score, max_score, FailureContext, EvidencePackage, DiagnosticResult, FilePatch,
  RawFixProposal, FixProposal, ProposalStatus, RiskLevel, RetrievalStatus, retrieval_value,
}
use akesis.Config.{Settings, Python}
use akesis.Runtime.{
  World, M, Result, ok, err, ErrorKind, Error, ◌>>=◌, ◌>>◌, pure, now, attempt, choose,
}

pub record PatchValidation : Type 0 where
  pub is_valid : Bool
  pub rejection_reasons : List String
  pub file_patches : List FilePatch
  pub target_files : List String
  pub risk_level : RiskLevel
  pub has_dependency_changes : Bool

-- raw diff, claimed target files, evidence, diagnosis
pub record PatchValidator : Type 0 where
  pub validate_patch : String → List String → EvidencePackage → DiagnosticResult → PatchValidation

-- `generate_structured` on the fix prompt
pub record FixModel : Type 0 where
  pub propose : FailureContext → DiagnosticResult → EvidencePackage → ℕ → Result RawFixProposal

abbrev pub proposal_id_of : FailureContext → String
proposal_id_of context =
    concat ("fix_" ∷ context.incident_id ∷ "_" ∷ prefix 8 context.commit_sha ∷ [])

abbrev bool_text : Bool → String
bool_text true = "True"
bool_text false = "False"

-- `_build_rejected_proposal`
abbrev pub build_rejected_proposal : FailureContext → String → Datetime → FixProposal
build_rejected_proposal context reason t = record {
  proposal_id = proposal_id_of context;
  incident_id = context.incident_id;
  diagnosis_id = some context.incident_id;
  commit_sha = context.commit_sha;
  status = ProposalStatus.rejected;
  is_valid = false;
  rejection_reasons = reason ∷ [];
  unified_diff = "";
  file_patches = [];
  target_files = [];
  rationale = "Fix proposal generation failed due to service or provider error.";
  assumptions = [];
  risk_level = RiskLevel.high;
  has_dependency_changes = false;
  confidence_score = 0;
  created_at = t;
}

-- step 1: the diagnosis may be acted on
abbrev pub is_actionable : Settings → DiagnosticResult → Bool
is_actionable settings d =
    d.proposal.is_fixable
    && not (ltb d.proposal.confidence_score settings.min_fix_confidence_threshold)

abbrev is_missing_status : RetrievalStatus → Bool
is_missing_status RetrievalStatus.unavailable = true
is_missing_status RetrievalStatus.empty = true
is_missing_status _ = false

abbrev pub lacks_code : EvidencePackage → Bool
lacks_code e = is_missing_status e.retrieval_status || is_empty e.code_evidences

-- `LLMError`, or any other exception
abbrev pub failure_of : Error → String
failure_of e = elim e.kind [
  | ErrorKind.llm ↦ concat ("LLM Provider Error: " ∷ e.message ∷ [])
  | _ ↦ concat ("Fix generation error: " ∷ e.message ∷ [])
]

module _ (settings : Settings) (python : Python) (context : FailureContext)
    (diagnosis : DiagnosticResult) where
  abbrev pub ineligible_proposal : Datetime → FixProposal
  ineligible_proposal t = record {
    proposal_id = proposal_id_of context;
    incident_id = context.incident_id;
    diagnosis_id = some diagnosis.incident_id;
    commit_sha = context.commit_sha;
    status = ProposalStatus.ineligible;
    is_valid = false;
    rejection_reasons =
        concat (
          "Ineligible for automated fix: is_fixable="
          ∷ bool_text diagnosis.proposal.is_fixable
          ∷ ", confidence="
          ∷ python.format_score diagnosis.proposal.confidence_score
          ∷ " (min "
          ∷ python.format_score settings.min_fix_confidence_threshold
          ∷ ")"
          ∷ [])
        ∷ [];
    unified_diff = "";
    file_patches = [];
    target_files = [];
    rationale = "Automated fix withheld due to low confidence or unfixable diagnosis.";
    assumptions = [];
    risk_level = RiskLevel.low;
    has_dependency_changes = false;
    confidence_score = diagnosis.proposal.confidence_score;
    created_at = t;
  }

  -- step 4
  abbrev pub checked_proposal : RawFixProposal → PatchValidation → Datetime → FixProposal
  checked_proposal raw v t = record {
    proposal_id = proposal_id_of context;
    incident_id = context.incident_id;
    diagnosis_id = some diagnosis.incident_id;
    commit_sha = context.commit_sha;
    status = if v.is_valid then ProposalStatus.proposed else ProposalStatus.rejected;
    is_valid = v.is_valid;
    rejection_reasons = v.rejection_reasons;
    unified_diff = if v.is_valid then raw.unified_diff else "";
    file_patches = v.file_patches;
    target_files = v.target_files;
    rationale = raw.explanation;
    assumptions = raw.assumptions;
    risk_level = v.risk_level;
    has_dependency_changes = v.has_dependency_changes;
    confidence_score = python.round_score (max 0 (min max_score raw.confidence_score));
    created_at = t;
  }

  abbrev pub no_code : Option EvidencePackage → String
  no_code evidence = concat (
      "Ineligible for automated fix: Codebase context unavailable ("
      ∷ or_else (Option.map (λ e. retrieval_value e.retrieval_status) evidence) "none"
      ∷ "). Application code modification requires verified repository source evidence."
      ∷ [])

  module _ (validator : PatchValidator) (model : FixModel) where
    -- the answer of the model
    unfoldable answer : EvidencePackage → Result RawFixProposal → M FixProposal
    answer evidence (ok raw) = do
      t ← now
      pure (
          checked_proposal raw
            (validator.validate_patch raw.unified_diff raw.target_files evidence diagnosis) t)
    answer evidence (err e) = do t ← now; pure (build_rejected_proposal context (failure_of e) t)

    unfoldable reject : Option EvidencePackage → M FixProposal
    unfolding retrieval_value
    reject evidence = do t ← now; pure (build_rejected_proposal context (no_code evidence) t)

    unfoldable propose_with : Option EvidencePackage → M FixProposal
    unfolding answer reject
    propose_with none = reject none
    propose_with (some evidence) =
        choose (lacks_code evidence) (reject (some evidence))
          (do raw ← attempt (model.propose context diagnosis evidence); answer evidence raw)

    unfoldable pub generate_fix_proposal : Option EvidencePackage → M FixProposal
    unfolding propose_with
    generate_fix_proposal evidence =
        choose (is_actionable settings diagnosis) (propose_with evidence)
          (do t ← now; pure (ineligible_proposal t))
