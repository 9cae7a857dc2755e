-- ===== src/Patch/Acceptance.antt =====
-- What `validate_patch` of src/packages/shared/patch_validator.py accepts.
use akesis.Common.{
  ◌≤◌, String, ◌≡◌, Bool, false, not, ◌&&◌, ◌||◌, Option, List, [], nat_eq, string_eq, codes,
  length, is_empty, any, all, All, contains, split_lines,
}
use akesis.Domain.{DiagnosticResult, EvidencePackage, FilePatch}
use akesis.Config.{Settings, Python}
use akesis.Paths.{Checkout}
use akesis.Fix.{PatchValidation}
use akesis.Patch.Parser.{parse_unified_diff}
use akesis.Patch.Allowed.{IsAllowed}
use akesis.Patch.Grounds.{IsKnown, is_plain_test, beyond_tests}
use akesis.Patch.Patterns.{protected_patterns}
use akesis.Patch.{
  normalized, is_empty_patch, unsafe_in_root, exists_in_repo, all_target_files, only_tests,
  grounded_paths, result_of,
}

module _ (repo_root : Option Checkout) (grounded : List String) where
  abbrev is_allowed : String → Bool
  is_allowed path =
      not (any (λ f. f (codes path)) protected_patterns)
      && (not (unsafe_in_root repo_root path)
          && (contains path grounded || exists_in_repo repo_root path))

module _ (settings : Settings) (python : Python) (evidence : Option EvidencePackage)
    (diagnosis : Option DiagnosticResult) (repo_root : Option Checkout) (raw_diff : String)
    (claimed : List String) where
  abbrev parsed : List FilePatch × List String
  parsed = parse_unified_diff python raw_diff

  abbrev pub targets : List String
  targets = all_target_files parsed.0 claimed

  -- The patch is a diff within the limits, of allowed files, that is more than tests.
  pub record IsAcceptable : Type 0 where
    pub not_empty : is_empty_patch raw_diff ≡ false
    pub few_chars : length (codes raw_diff) ≤ settings.max_patch_chars
    pub few_lines : length (split_lines raw_diff) ≤ settings.max_patch_lines
    pub parses : parsed.1 ≡ []
    pub has_file : is_empty parsed.0 ≡ false
    pub few_files : length targets ≤ settings.max_fix_target_files
    pub allowed :
        All
          (λ p.
            IsAllowed repo_root
              (grounded_paths settings python evidence diagnosis repo_root)
              (normalized p))
          targets
    pub known : All (λ p. IsKnown repo_root evidence diagnosis (normalized p)) targets
    pub not_only_tests : only_tests targets ≡ false
    pub beyond_tests : (not (is_empty targets) && all is_plain_test targets) ≡ false

  abbrev result : PatchValidation
  result = result_of settings python evidence diagnosis repo_root raw_diff parsed.0 parsed.1 targets
