-- ===== src/Context/Examine.antt =====
-- What `resolve_context` of src/packages/shared/context_resolver.py makes of one candidate.
use akesis.Common.{
  ℕ, ◌+◌, ◌≤◌, String, ◌≡◌, refl, ◌⊎◌, inl, inr, true, Option, List, [], ◌∷◌, arith, nat_eq,
  string_eq, ltb, Bool-cases, Option-cases, codes, length,
}
use akesis.Context.Search.{Limits, Outcome, examine, evidence_of, extract, read_file}
use akesis.Runtime.{Result, ok, Error, err}
use akesis.Paths.{Checkout, normalize_repo_relative_path, is_path_safe_and_within_root}
use akesis.Context.Imports.{Candidate}
use akesis.Domain.{CodeEvidence}
use akesis.Paths.Shape.{IsContained, is_path_safe-IsContained}

Result-cases : {A : Type 0} (r : Result A) → ((a : A) × (r ≡ ok a)) ⊎ ((e : Error) × (r ≡ err e))
Result-cases (ok a) = inl (a, refl)
Result-cases (err e) = inr (e, refl)

module _ (limits : Limits) (root : Checkout) (repo_name commit_sha : String) where
  abbrev pub clean : Candidate → String
  clean c = normalize_repo_relative_path c.raw_path repo_name

  -- A snippet of a file of the repository, within the budget.
  pub record IsExtraction (total : ℕ) (path : String) (target : Option ℕ) (e : CodeEvidence)
      (lines : List String) : Type 0 where
    pub safe_path : String
    pub is_contained : IsContained root path safe_path
    pub exists : root.is_file safe_path ≡ true
    pub not_empty : 1 ≤ length lines
    pub built : e ≡ evidence_of limits root repo_name commit_sha path safe_path target lines
    pub fits : total + length (codes e.content) ≤ limits.max_total_chars

  abbrev IsTaken : ℕ → String → Option ℕ → Outcome → Type 0
  IsTaken total path target (Outcome.skipped note) = Unit
  IsTaken total path target (Outcome.stopped note) = Unit
  IsTaken total path target (Outcome.extracted e ext lines) = IsExtraction total path target e lines

  module _ (total : ℕ) (path safe_path : String) (contained : IsContained root path safe_path)
      (is_file : root.is_file safe_path ≡ true) (target : Option ℕ) where
    extract-IsTaken :
        (lines : List String)
        → IsTaken total path target
            (extract limits root repo_name commit_sha total path safe_path target lines)
    extract-IsTaken [] = tt
    extract-IsTaken (l ∷ ls) =
        let e = evidence_of limits root repo_name commit_sha path safe_path target (l ∷ ls) in
        elim (Bool-cases (ltb limits.max_total_chars (total + length (codes e.content)))) [
          | inl over ↦ rw over tt
          | inr small ↦ rw small (record {
            safe_path = safe_path;
            is_contained = contained;
            exists = is_file;
            not_empty = omega arith;
            built = refl;
            fits = ground (arith, small);
          })
        ]

    read_file-IsTaken :
        IsTaken total path target
          (read_file limits root repo_name commit_sha total path safe_path target)
    read_file-IsTaken = elim (Result-cases (root.size safe_path)) [
      | inr (e, failed) ↦ rw (failed, IsTaken, read_file) tt
      | inl (size, known) ↦
          rw (known, IsTaken, read_file)
            (elim (Bool-cases (ltb limits.max_file_size size)) [
              | inl large ↦ rw large tt
              | inr small ↦ rw small (elim (Result-cases (root.read_lines safe_path)) [
                | inr (e, failed) ↦ rw failed tt
                | inl (lines, read) ↦ rw read (extract-IsTaken lines)
              ])
            ])
    ]

  examine-IsTaken :
      (total : ℕ) (c : Candidate)
      → IsTaken total (clean c) c.target_line (examine limits root repo_name commit_sha total c)
  unfolding examine
  examine-IsTaken total c =
      let path = normalize_repo_relative_path c.raw_path repo_name in
      elim (Option-cases (is_path_safe_and_within_root root path)) [
        | inl unsafe ↦ rw (unsafe, IsTaken) tt
        | inr (safe_path, safe) ↦
            rw (safe, IsTaken)
              (elim (Bool-cases (root.is_file safe_path)) [
                | inl file ↦ rw file (
                    read_file-IsTaken total path safe_path
                      (is_path_safe-IsContained root path safe_path safe) file c.target_line)
                | inr missing ↦ rw missing tt
              ])
      ]

  pub examine-IsExtraction :
      (total : ℕ) (c : Candidate) (e : CodeEvidence) (ext : String) (lines : List String)
      → examine limits root repo_name commit_sha total c ≡ Outcome.extracted e ext lines
      → IsExtraction total (clean c) c.target_line e lines
  examine-IsExtraction total c e ext lines same =
      let taken = examine-IsTaken total c in rw same at taken
