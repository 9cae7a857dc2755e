-- ===== src/Branch.antt =====
-- The branch names of src/packages/shared/mutation_service.py.
pub mod Safety
use akesis.Common.{
  ℕ, zero, suc, ◌+◌, ◌-◌, ◌*◌, ◌/◌, ◌%◌, ◌≤◌, ◌<◌, min, max, String, ◌≡◌, refl, sym, ap, ◌∙◌, ◌≢◌,
  ◌↔◌, ◌⊎◌, inl, inr, Bool, true, false, not, ◌&&◌, ◌||◌, Option, none, some, List, [], ◌∷◌, ◌++◌,
  map, arith, eq_iff, eq_refl, Eq, ◌==◌, nat_eq, string_eq, if◌then◌else◌, ltb, leb, Bool-cases,
  Option-cases, and-false, codes, keep, lower, starts, has_part, last_is, same_codes, is_some,
  or_else, length, is_empty, any, all, select, update, length-append, All, contains, dedupe, concat,
  join, prefix, is_blank, decimal,
}
use akesis.Runtime.{M, ErrorKind, ◌>>=◌, ◌>>◌, pure, raise_if}

-- `[a-zA-Z0-9_\-]`
abbrev pub is_id_char : ℕ → Bool
is_id_char c =
    (leb b'a' c && leb c b'z')
    || ((leb b'A' c && leb c b'Z') || ((leb b'0' c && leb c b'9') || (c == b'_' || c == b'-')))

-- `[a-zA-Z0-9_\-\./]`
abbrev pub is_branch_char : ℕ → Bool
is_branch_char c = is_id_char c || (c == b'.' || c == b'/')

abbrev pub clean : String → String
clean s = keep is_id_char s

unfoldable pub generate_branch_name : String → String → String
generate_branch_name incident_id proposal_id =
    concat ("akesis/fix/" ∷ clean incident_id ∷ "/" ∷ clean proposal_id ∷ [])

-- what may follow the first character of a match of `^[a-zA-Z0-9_\-\./]+$`: `$` also matches
-- before a line feed that ends the text
abbrev pub matches_rest : List ℕ → Bool
matches_rest [] = true
matches_rest (c ∷ []) = is_branch_char c || c == 10
matches_rest (c ∷ d ∷ cs) = is_branch_char c && matches_rest (d ∷ cs)

-- SAFE_BRANCH_NAME_RE
abbrev pub matches_safe : List ℕ → Bool
matches_safe [] = false
matches_safe (c ∷ cs) = is_branch_char c && matches_rest cs

-- PROTECTED_BRANCHES
abbrev pub protected_branches : List String
protected_branches = "main" ∷ "master" ∷ "develop" ∷ "release" ∷ "production" ∷ "staging" ∷ []

abbrev pub is_protected : List ℕ → Bool
is_protected name = any (λ b. same_codes (map lower name) (codes b)) protected_branches

abbrev pub has_traversal : List ℕ → Bool
has_traversal name = has_part name (codes "..") || (starts name (codes "/") || last_is b'/' name)

unfoldable pub validate_branch_name : String → M (Unit {0})
validate_branch_name branch_name = do
  raise_if (not (matches_safe (codes branch_name))) ErrorKind.unsafe_branch
      (concat ("Branch name '" ∷ branch_name ∷ "' contains invalid characters." ∷ []))
  raise_if (has_traversal (codes branch_name)) ErrorKind.unsafe_branch (
      concat
        ("Branch name '" ∷ branch_name ∷ "' contains directory traversal or invalid slashes." ∷ []))
  raise_if (is_protected (codes branch_name)) ErrorKind.unsafe_branch
      (concat ("Branch name '" ∷ branch_name ∷ "' collides with protected branch." ∷ []))
