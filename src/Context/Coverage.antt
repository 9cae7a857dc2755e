-- ===== src/Context/Coverage.antt =====
-- What the status of `resolve_context` of src/packages/shared/context_resolver.py promises.
use akesis.Common.{
  ◌<◌, String, ◌≡◌, ◌⊎◌, false, List, ◌++◌, map, nat_eq, string_eq, length, is_empty,
}
use akesis.Context.Search.{Limits, Scan}
use akesis.Paths.{Checkout, normalize_repo_relative_path}
use akesis.Context.Imports.{Candidate}
use akesis.Domain.{FailureContext}
use akesis.Context.Examine.{clean}
use akesis.Context.{EvidencePackage, candidate_targets}

module _ (limits : Limits) (root : Checkout) (repo_name commit_sha : String)
    (given : List Candidate) where
  -- The candidates that the loop has passed: either each has its evidence, or some has none.
  record IsPassed (cs : List Candidate) (s : Scan) : Type 0 where
    added : List Candidate
    passed : List Candidate
    grown : s.candidates ≡ given ++ added
    splits : s.candidates ≡ passed ++ cs
    covered :
        (map (λ e. e.path) s.evidences ≡ map (clean limits root repo_name commit_sha) passed)
        ⊎ (length s.evidences < length passed)

  -- All candidates have their evidence, or there is less evidence than candidates.
  record IsCovered (s : Scan) : Type 0 where
    added : List Candidate
    grown : s.candidates ≡ given ++ added
    covered :
        (map (λ e. e.path) s.evidences ≡ map (clean limits root repo_name commit_sha) s.candidates)
        ⊎ (length s.evidences < length s.candidates)

-- Each location of the failure, and each local module that the loop has added, has its evidence.
pub record IsComplete (context : FailureContext) (p : EvidencePackage) : Type 0 where
  pub imports : List Candidate
  pub each :
      map (λ e. e.path) p.code_evidences
      ≡ map
          (λ c. normalize_repo_relative_path c.raw_path context.repository_name)
          (candidate_targets context.signal ++ imports)
  pub located : is_empty (candidate_targets context.signal) ≡ false
