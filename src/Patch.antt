-- ===== src/Patch.antt =====
-- class PatchValidator of src/packages/shared/patch_validator.py.
pub mod Header
pub mod HeaderRoundTrip
pub mod Parser
pub mod Patterns
pub mod WellFormed
pub mod Printed
pub mod Run
pub mod RoundTrip
pub mod Allowed
pub mod Grounds
pub mod Acceptance
pub mod Proposal
use akesis.Common.{
  ℕ, zero, suc, ◌+◌, ◌-◌, ◌*◌, ◌/◌, ◌%◌, ◌≤◌, ◌<◌, min, max, String, ◌≡◌, refl, sym, ap, ◌∙◌, ◌≢◌,
  ◌↔◌, ◌⊎◌, inl, inr, Bool, true, false, not, ◌&&◌, ◌||◌, Option, none, some, List, [], ◌∷◌, ◌++◌,
  map, arith, eq_iff, eq_refl, Eq, ◌==◌, nat_eq, string_eq, if◌then◌else◌, ltb, leb, Bool-cases,
  Option-cases, and-false, codes, keep, lower, starts, has_part, last_is, same_codes, is_some,
  or_else, length, is_empty, any, all, select, update, length-append, All, contains, dedupe, concat,
  join, prefix, is_blank, text_or, decimal, within, is_space, is_break, is_digit, onto, lines_from,
  split_lines, strip_left, strip_right, strip, drop, starts_with, ends, after_first, until,
  replace_char, read_digits, skip_space, ◌>>=◌, list_append_nil, list_append_assoc, map-snoc,
  length-map, All-append, codes-append, read_digits-decimal, starts_digitless, StartsDigit,
  decimal-StartsDigit, IsLine, split_lines-join, drop-append,
}
use akesis.Domain.{
  DiagnosticResult, EvidencePackage, CodeEvidence, TracebackFrame, FilePatch, RiskLevel,
}
use akesis.Config.{Settings, Python}
use akesis.Paths.{Checkout, normalize_repo_relative_path, is_path_safe_and_within_root}
use akesis.Fix.{PatchValidation, PatchValidator}
use akesis.Patch.Parser.{parse_unified_diff}
use akesis.Patch.Patterns.{protected_patterns, is_test_file, is_dependency_file}

abbrev pub normalized : String → String
normalized path = normalize_repo_relative_path path ""

-- `not raw_diff or not raw_diff.strip()`
abbrev pub is_empty_patch : String → Bool
is_empty_patch raw_diff = is_blank (strip raw_diff)

-- `[message]` if the test holds
abbrev pub when : Bool → String → List String
when test message = if test then message ∷ [] else []

abbrev pub append_all : List (List String) → List String
append_all [] = []
append_all (xs ∷ xss) = xs ++ append_all xss

-- the paths of a list of texts, less the empty ones
abbrev pub normalized_all : List String → List String
normalized_all [] = []
normalized_all (p ∷ ps) =
    let rest = normalized_all ps in if is_blank p then rest else normalized p ∷ rest

abbrev pub normalized_option : Option String → List String
normalized_option none = []
normalized_option (some p) = normalized_all (p ∷ [])

-- step 4; a package or a diagnosis that is not given grounds nothing
abbrev pub grounded_by_evidence : Option EvidencePackage → List String
grounded_by_evidence none = []
grounded_by_evidence (some e) =
    map (λ c. c.path) e.code_evidences
    ++ (normalized_option e.failure_context.signal.target_file
        ++ normalized_all (map (λ f. f.file_path) e.failure_context.signal.traceback_frames))

abbrev pub grounded_by_diagnosis : Option DiagnosticResult → List String
grounded_by_diagnosis none = []
grounded_by_diagnosis (some d) = normalized_option d.proposal.target_file

-- step 3, the files that the patch or its claim names
abbrev pub all_target_files : List FilePatch → List String → List String
all_target_files patches claimed = dedupe (map (λ p. p.path) patches ++ normalized_all claimed)

-- one message for each protected pattern that a path matches
abbrev pub protected_reasons : List (List ℕ → Bool) → String → List String
protected_reasons [] path = []
protected_reasons (f ∷ fs) path =
    when (f (codes path))
      (concat ("Target path '" ∷ path ∷ "' matches protected security pattern." ∷ []))
    ++ protected_reasons fs path

abbrev pub unsafe_in_root : Option Checkout → String → Bool
unsafe_in_root none path = has_part (codes path) (codes "..") || starts_with path "/"
unsafe_in_root (some root) path = not (is_some (is_path_safe_and_within_root root path))

abbrev pub exists_in_repo : Option Checkout → String → Bool
exists_in_repo none path = false
exists_in_repo (some root) path = elim (is_path_safe_and_within_root root path) [
  | none ↦ false
  | some candidate ↦ root.is_file candidate
]

abbrev unsafe_message : Option Checkout → String → String
unsafe_message none path =
    concat ("Target path '" ∷ path ∷ "' contains unsafe path traversal elements." ∷ [])
unsafe_message (some root) path =
    concat ("Target path '" ∷ path ∷ "' is outside root or uses unsafe traversal." ∷ [])

-- step 5, of a normalized path
abbrev pub path_reasons : Option Checkout → List String → String → List String
path_reasons repo_root grounded path =
    protected_reasons protected_patterns path
    ++ (when (unsafe_in_root repo_root path) (unsafe_message repo_root path)
        ++ when (not (contains path grounded) && not (exists_in_repo repo_root path)) (
            concat (
              "Target path '" ∷ path
              ∷ "' is neither grounded in evidence nor verified to exist in repository." ∷ [])))

abbrev pub all_path_reasons : Option Checkout → List String → List String → List String
all_path_reasons repo_root grounded [] = []
all_path_reasons repo_root grounded (path ∷ paths) =
    path_reasons repo_root grounded (normalized path) ++ all_path_reasons repo_root grounded paths

abbrev pub only_tests : List String → Bool
only_tests paths = not (is_empty paths) && all is_test_file paths

abbrev pub risk_of : Bool → ℕ → ℕ → RiskLevel
risk_of has_dependency_changes files lines =
    if has_dependency_changes
    then RiskLevel.high
    else if ltb 1 files || ltb 40 lines
    then RiskLevel.medium
    else RiskLevel.low

abbrev pub empty_patch : PatchValidation
empty_patch = record {
  is_valid = false;
  rejection_reasons = "Patch is empty." ∷ [];
  file_patches = [];
  target_files = [];
  risk_level = RiskLevel.high;
  has_dependency_changes = false;
}

module _ (settings : Settings) (python : Python) (evidence : Option EvidencePackage)
    (diagnosis : Option DiagnosticResult) (repo_root : Option Checkout) where
  abbrev pub grounded_paths : List String
  grounded_paths = grounded_by_evidence evidence ++ grounded_by_diagnosis diagnosis

  -- all reasons, in the order in which they are found
  abbrev pub reasons_of : String → List FilePatch → List String → List String → List String
  reasons_of raw_diff patches parse_errors targets = append_all (
      when (ltb settings.max_patch_chars (length (codes raw_diff))) (
        concat (
          "Patch char count ("
          ∷ decimal (length (codes raw_diff))
          ∷ ") exceeds maximum ("
          ∷ decimal settings.max_patch_chars
          ∷ ")."
          ∷ []))
      ∷ when (ltb settings.max_patch_lines (length (split_lines raw_diff))) (
          concat (
            "Patch line count ("
            ∷ decimal (length (split_lines raw_diff))
            ∷ ") exceeds maximum ("
            ∷ decimal settings.max_patch_lines
            ∷ ")."
            ∷ []))
      ∷ parse_errors
      ∷ when (is_empty patches && is_empty parse_errors) "No valid file diff blocks found in patch."
      ∷ when (ltb settings.max_fix_target_files (length targets)) (
          concat (
            "Patch modifies "
            ∷ decimal (length targets)
            ∷ " files (max "
            ∷ decimal settings.max_fix_target_files
            ∷ ")."
            ∷ []))
      ∷ all_path_reasons repo_root grounded_paths targets
      ∷ when (only_tests targets)
          "Proposed patch exclusively modifies test files. Test files cannot be the primary mutation target for application defect remediation."
      ∷ [])

  abbrev pub result_of : String → List FilePatch → List String → List String → PatchValidation
  result_of raw_diff patches parse_errors targets =
      let reasons = reasons_of raw_diff patches parse_errors targets in
      let has_dependency_changes = any (λ p. is_dependency_file (normalized p)) targets in
      record {
        is_valid = is_empty reasons;
        rejection_reasons = reasons;
        file_patches = patches;
        target_files = targets;
        risk_level =
            risk_of has_dependency_changes (length targets) (length (split_lines raw_diff));
        has_dependency_changes = has_dependency_changes;
      }

  unfoldable pub validate_patch : String → List String → PatchValidation
  unfolding parse_unified_diff
  validate_patch raw_diff claimed =
      let parsed = parse_unified_diff python raw_diff in
      if is_empty_patch raw_diff
      then empty_patch
      else result_of raw_diff parsed.0 parsed.1 (all_target_files parsed.0 claimed)

-- The validator that the fix service is given, with the repository that its caller names, if any.
abbrev pub patch_validator : Settings → Python → Option Checkout → PatchValidator
patch_validator settings python repo_root = record {
  validate_patch = λ raw_diff claimed evidence diagnosis.
      validate_patch settings python (some evidence) (some diagnosis) repo_root raw_diff claimed;
}
