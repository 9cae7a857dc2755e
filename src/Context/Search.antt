-- ===== src/Context/Search.antt =====
-- Step 3 of `resolve_context` of src/packages/shared/context_resolver.py: the loop over the candidates,
-- to which a Python file that is read adds the local modules it imports.
use akesis.Common.{
  ℕ, zero, suc, ◌+◌, String, Option, none, some, List, [], ◌∷◌, ◌++◌, ◌==◌, nat_eq, string_eq,
  if◌then◌else◌, ltb, codes, length, is_empty, concat, prefix, decimal,
}
use akesis.Context.Imports.{Candidate, imported}
use akesis.Domain.{CodeEvidence}
use akesis.Paths.{Checkout, normalize_repo_relative_path, is_path_safe_and_within_root}
use akesis.Context.Snippet.{line_range, snippet, language}
use akesis.Runtime.{Error, err, ok}

pub record Limits : Type 0 where
  pub max_window_lines : ℕ
  pub max_file_size : ℕ
  pub max_evidence_files : ℕ
  pub max_total_chars : ℕ

pub record Scan : Type 0 where
  pub candidates : List Candidate
  pub evidences : List CodeEvidence
  pub notes : List String
  pub total_chars : ℕ

-- what a candidate leads to: a note and the next candidate, a note and the end of the loop, or an
-- evidence, with the lines and the suffix of its file
pub data Outcome : Type 0 where
  skipped stopped : String → Outcome
  extracted : CodeEvidence → String → List String → Outcome

module _ (limits : Limits) (checkout : Checkout) (repo_name commit_sha : String) where
  abbrev pub evidence_of : String → String → Option ℕ → List String → CodeEvidence
  evidence_of path safe_path target_line lines =
      let (first, last) = line_range limits.max_window_lines target_line (length lines) in
      record {
        path = path;
        start_line = first;
        end_line = last;
        target_line = target_line;
        content = snippet target_line first last lines;
        total_file_lines = length lines;
        language = language (checkout.suffix safe_path);
      }

  abbrev pub extract : ℕ → String → String → Option ℕ → List String → Outcome
  extract total path safe_path target_line lines =
      let evidence = evidence_of path safe_path target_line lines in
      if is_empty lines
      then Outcome.skipped (concat ("Skipped empty file: " ∷ path ∷ []))
      else if ltb limits.max_total_chars (total + length (codes evidence.content))
      then Outcome.stopped (concat ("Snippet for " ∷ path ∷ " exceeded remaining char budget" ∷ []))
      else Outcome.extracted evidence (checkout.suffix safe_path) lines

  abbrev error_reading : String → Error → Outcome
  error_reading path e = Outcome.skipped (concat ("Error reading " ∷ path ∷ ": " ∷ e.message ∷ []))

  abbrev pub read_file : ℕ → String → String → Option ℕ → Outcome
  read_file total path safe_path target_line = elim (checkout.size safe_path) [
    | err e ↦ error_reading path e
    | ok size ↦
        if ltb limits.max_file_size size
        then Outcome.skipped
            (concat ("Skipped " ∷ path ∷ ": size " ∷ decimal size ∷ "B exceeds limit" ∷ []))
        else elim (checkout.read_lines safe_path) [
          | err e ↦ error_reading path e
          | ok lines ↦ extract total path safe_path target_line lines
        ]
  ]

  unfoldable pub examine : ℕ → Candidate → Outcome
  examine total c =
      let path = normalize_repo_relative_path c.raw_path repo_name in
      elim (is_path_safe_and_within_root checkout path) [
        | none ↦ Outcome.skipped (concat ("Rejected unsafe or traversing path: " ∷ c.raw_path ∷ []))
        | some safe_path ↦
            if checkout.is_file safe_path
            then read_file total path safe_path c.target_line
            else Outcome.skipped
                (concat ("File not found at commit " ∷ prefix 8 commit_sha ∷ ": " ∷ path ∷ []))
      ]

  abbrev pub add_note : String → Scan → Scan
  add_note note s = record s { notes = s.notes ++ note ∷ [] }

  abbrev pub add_evidence : CodeEvidence → List Candidate → Scan → Scan
  add_evidence e new s = record {
    candidates = s.candidates ++ new;
    evidences = s.evidences ++ e ∷ [];
    notes =
        s.notes
        ++ concat (
            "Extracted "
            ∷ e.path
            ∷ " (lines "
            ∷ decimal e.start_line
            ∷ "-"
            ∷ decimal e.end_line
            ∷ ")"
            ∷ [])
          ∷ [];
    total_chars = s.total_chars + length (codes e.content);
  }

  -- the candidates that a file adds
  abbrev pub found : String → List String → Scan → List Candidate
  found ext lines s = if ext == ".py" then imported checkout s.candidates lines else []

  -- the first number is how many more files may be taken: `max_evidence_files - len(evidences)`; the
  -- list is what the loop has not yet reached of `candidates`
  unfoldable pub scan : ℕ → List Candidate → Scan → Scan
  unfolding examine
  scan left [] s = s
  scan zero (c ∷ cs) s =
      add_note
        (concat ("Reached maximum file limit (" ∷ decimal limits.max_evidence_files ∷ ")" ∷ [])) s
  scan (suc left) (c ∷ cs) s = elim (examine s.total_chars c) [
    | Outcome.skipped note ↦ scan (suc left) cs (add_note note s)
    | Outcome.stopped note ↦ add_note note s
    | Outcome.extracted e ext lines ↦
        scan left (cs ++ found ext lines s) (add_evidence e (found ext lines s) s)
  ]
