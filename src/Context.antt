-- ===== src/Context.antt =====
-- class CodebaseContextResolver of src/packages/shared/context_resolver.py.
pub mod Imports
pub mod Snippet
pub mod Search
pub mod Examine
pub mod Loop
pub mod Bounds
pub mod Coverage
use akesis.Common.{
  ℕ, zero, suc, ◌+◌, ◌-◌, ◌*◌, ◌/◌, ◌%◌, ◌≤◌, ◌<◌, min, max, String, ◌≡◌, refl, sym, ap, ◌∙◌, ◌≢◌,
  ◌↔◌, ◌⊎◌, inl, inr, Bool, true, false, not, ◌&&◌, ◌||◌, Option, none, some, List, [], ◌∷◌, ◌++◌,
  map, arith, eq_iff, eq_refl, Eq, ◌==◌, nat_eq, string_eq, if◌then◌else◌, ltb, leb, Bool-cases,
  Option-cases, and-false, codes, keep, lower, starts, has_part, last_is, same_codes, is_some,
  or_else, length, is_empty, any, all, select, update, length-append, All, contains, dedupe, concat,
  join, prefix, is_blank, text_or, decimal, within, is_space, is_break, is_digit, onto, lines_from,
  split_lines, strip_left, strip_right, strip, drop, starts_with, ends, after_first, until,
  replace_char, read_digits, skip_space, ◌>>=◌, codes-append, read_digits-decimal, starts_digitless,
  StartsDigit, decimal-StartsDigit, IsLine, split_lines-join, drop-append,
}
use akesis.Config.{Settings}
use akesis.Runtime.{ErrorKind, Result, ok, err}
use akesis.Domain.{FailureContext, CodeEvidence, EvidencePackage, RetrievalStatus}
use akesis.Paths.{Checkout}
use akesis.Context.Search.{Limits, Scan, scan}
use akesis.Context.Imports.{candidate_targets}

-- RepoCheckoutProtocol
pub record CheckoutManager : Type 0 where
  pub checkout_commit : String → String → String → Result Checkout

-- the arguments of `__init__`, each replaced by a setting where it is left out or 0
abbrev pub number_or : Option ℕ → ℕ → ℕ
number_or none other = other
number_or (some n) other = if n == 0 then other else n

abbrev pub limits_of : Settings → Option ℕ → Option ℕ → Option ℕ → Option ℕ → Limits
limits_of settings max_window_lines max_file_size_bytes max_evidence_files max_total_chars =
    record {
      max_window_lines = number_or max_window_lines settings.max_context_window_lines;
      max_file_size = number_or max_file_size_bytes settings.max_file_size_bytes;
      max_evidence_files = number_or max_evidence_files settings.max_evidence_files;
      max_total_chars = number_or max_total_chars settings.max_total_source_chars;
    }

module _ (limits : Limits) (now : ℕ) (context : FailureContext) where
  abbrev pub package_of : List CodeEvidence → RetrievalStatus → List String → EvidencePackage
  package_of evidences status notes = record {
    incident_id = context.incident_id;
    commit_sha = context.commit_sha;
    failure_context = context;
    code_evidences = evidences;
    retrieval_status = status;
    retrieval_notes = notes;
    created_at = now;
  }

  abbrev pub status_of : Scan → RetrievalStatus
  status_of s =
      if is_empty s.evidences
      then RetrievalStatus.empty
      else if ltb (length s.evidences) (length s.candidates)
      then RetrievalStatus.partial
      else RetrievalStatus.success

  -- steps 2 and 3, in a repository
  unfoldable pub resolve_in : Checkout → List String → EvidencePackage
  unfolding scan
  resolve_in root notes =
      let candidates = candidate_targets context.signal in
      let scanned =
        scan limits root context.repository_name context.commit_sha limits.max_evidence_files
          candidates
          (record { candidates = candidates; evidences = []; notes = notes; total_chars = 0 }) in
      if is_empty candidates
      then package_of [] RetrievalStatus.empty
          (notes ++ "No target source file identified from failure signal." ∷ [])
      else package_of scanned.evidences (status_of scanned) scanned.notes

  -- where `repo_root` is not given, the commit is checked out; InvalidCommitError and
  -- RepositoryCheckoutError are of the kind `checkout`
  abbrev pub resolve_context : CheckoutManager → Option Checkout → Result EvidencePackage
  resolve_context manager (some repo_root) = ok (resolve_in repo_root [])
  resolve_context manager none =
      elim (manager.checkout_commit context.repository_owner context.repository_name
        context.commit_sha) [
          | ok root ↦ ok (
              resolve_in root (
                concat (
                  "Successfully checked out "
                  ∷ context.repository_owner
                  ∷ "/"
                  ∷ context.repository_name
                  ∷ "@"
                  ∷ prefix 8 context.commit_sha
                  ∷ [])
                ∷ []))
          | err e ↦ elim e.kind [
            | ErrorKind.checkout ↦ ok (
                package_of [] RetrievalStatus.unavailable
                  (concat ("Repository checkout failed: " ∷ e.message ∷ []) ∷ []))
            | _ ↦ err e
          ]
        ]
