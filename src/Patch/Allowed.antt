-- ===== src/Patch/Allowed.antt =====
-- The paths that the checks of step 5 of `validate_patch` of src/packages/shared/patch_validator.py
-- let through, in terms of their text.
use akesis.Common.{
  ℕ, String, ◌≡◌, refl, sym, ◌∙◌, inl, inr, Bool, true, false, not, ◌&&◌, ◌||◌, Option, none, some,
  List, [], ◌∷◌, map, arith, ◌==◌, nat_eq, string_eq, ltb, Bool-cases, Option-cases, codes, lower,
  starts, has_part, same_codes, is_some, length, is_empty, any, all, All, contains, ends,
  starts_with, refute, and_left, and_right, or_left, or_right,
}
use akesis.Paths.{Checkout, is_path_safe_and_within_root}
use akesis.Paths.Shape.{IsContained, is_path_safe-IsContained}
use akesis.Patch.Patterns.{
  protected_patterns, is_env, is_binary, rest_of, some_line, is_whole, at_end, binary_extensions,
}
use akesis.Patch.{unsafe_in_root, exists_in_repo}

or_none : (a b : Bool) → (a || b) ≡ false → (a ≡ false) × (b ≡ false)
or_none a b h = (or_left a b h, or_right a b h)

or_second : (a b : Bool) → b ≡ true → (a || b) ≡ true
or_second true b h = refl
or_second false b h = h

abbrev in_line : ℕ → Bool
in_line c = not (c == 10)

-- `.env.` with something after it, on one line
abbrev pub is_env_variant : String → Bool
is_env_variant path =
    starts_with path ".env."
    && (ltb 5 (length (codes path)) && all (λ c. not (c == 10)) (codes path))

-- A path that is no workflow, nothing of git's own, no environment file and no binary file.
pub record IsUnprotected (path : String) : Type 0 where
  pub no_workflow : starts_with path ".github/workflows/" ≡ false
  pub no_git : starts_with path ".git/" ≡ false
  pub no_env : same_codes (codes path) (codes ".env") ≡ false
  pub no_env_variant : is_env_variant path ≡ false
  pub no_binary :
      All
        (λ x. ends (map lower (codes path)) (codes x) ≡ false)
        (".exe" ∷ ".dll" ∷ ".so" ∷ ".dylib" ∷ ".bin" ∷ ".pyc" ∷ ".pyd" ∷ ".whl" ∷ ".tar" ∷ ".gz"
          ∷ ".zip" ∷ ".png" ∷ ".jpg" ∷ ".jpeg" ∷ ".gif" ∷ ".ico" ∷ [])

some_line-all : (s : List ℕ) → is_empty s ≡ false → all in_line s ≡ true → some_line s ≡ true
some_line-all [] h a = ground arith
some_line-all (c ∷ []) h a = ground arith
some_line-all (c ∷ d ∷ cs) h a = ground (arith, some_line-all (d ∷ cs) refl)

-- What follows a start keeps what holds of all characters, and is not empty if the text is longer.
rest_of-starts :
    (t s : List ℕ)
    → starts s t ≡ true
    → ltb (length t) (length s) ≡ true
    → all in_line s ≡ true
    → (r : List ℕ) × (rest_of s t ≡ some r) × (is_empty r ≡ false) × (all in_line r ≡ true)
rest_of-starts [] [] h l a = ground arith
rest_of-starts [] (c ∷ s) h l a = (c ∷ s, refl, refl, a)
rest_of-starts (d ∷ t) [] h l a = ground arith
rest_of-starts (d ∷ t) (c ∷ s) h l a = elim (Bool-cases (c == d)) [
  | inl e ↦
      let (r, found, some_left, kept) =
        rest_of-starts t s (ground arith) (ground arith) (ground arith) in
      (r, rw e found, some_left, kept)
  | inr e ↦ ground arith
]

is_env-variant : (path : String) → is_env_variant path ≡ true → is_env (codes path) ≡ true
unfolding is_env
is_env-variant path h =
    let later = and_right _ _ h in
    let (r, found, some_left, kept) =
      rest_of-starts (codes ".env.") (codes path) (and_left _ _ h) (and_left _ _ later)
        (and_right _ _ later) in
    rw found (
      or_second (is_whole (codes path) (codes ".env")) (some_line r)
        (some_line-all r some_left kept))

no_ends :
    (s : List ℕ) (xs : List String)
    → any (λ x. at_end s (codes x)) xs ≡ false
    → All (λ x. ends s (codes x) ≡ false) xs
no_ends s [] h = tt
no_ends s (x ∷ xs) h = let here = or_none _ _ h in ((or_none _ _ here.0).0, no_ends s xs here.1)

unprotected :
    (path : String) → any (λ f. f (codes path)) protected_patterns ≡ false → IsUnprotected path
unfolding protected_patterns is_env is_binary
unprotected path h =
    let workflow = or_none _ _ h in
    let git = or_none _ _ workflow.1 in
    let env = or_none _ _ git.1 in
    record {
      no_workflow = workflow.0;
      no_git = git.0;
      no_env = (or_none _ _ (or_none _ _ env.0).0).0;
      no_env_variant = refute _ (λ e. sym env.0 ∙ is_env-variant path e);
      no_binary =
          no_ends (map lower (codes path)) binary_extensions
            (or_none (is_binary (codes path)) false env.1).0;
    }

-- Where the repository is given, the path resolves to a place under its root.
abbrev pub IsInside : Option Checkout → String → Type 0
IsInside none path = Unit
IsInside (some root) path = (candidate : String) × IsContained root path candidate

-- A path that a patch may touch.
pub record IsAllowed (repo_root : Option Checkout) (grounded : List String) (path : String)
    : Type 0 where
  pub matches_none : any (λ f. f (codes path)) protected_patterns ≡ false
  pub unprotected : IsUnprotected path
  pub safe : unsafe_in_root repo_root path ≡ false
  pub no_climb : has_part (codes path) (codes "..") ≡ false
  pub relative : starts_with path "/" ≡ false
  pub inside : IsInside repo_root path
  pub known : (contains path grounded || exists_in_repo repo_root path) ≡ true

some-IsContained :
    (root : Checkout) (path : String)
    → not (is_some (is_path_safe_and_within_root root path)) ≡ false
    → (candidate : String) × IsContained root path candidate
some-IsContained root path h = elim (Option-cases (is_path_safe_and_within_root root path)) [
  | inl absent ↦ let e : true ≡ false = rw absent at h in cc
  | inr (candidate, found) ↦ (candidate, is_path_safe-IsContained root path candidate found)
]

-- What the tests of step 5 let through is allowed.
pub tests-IsAllowed :
    (repo_root : Option Checkout) (grounded : List String) (path : String)
    → any (λ f. f (codes path)) protected_patterns ≡ false
    → unsafe_in_root repo_root path ≡ false
    → (contains path grounded || exists_in_repo repo_root path) ≡ true
    → IsAllowed repo_root grounded path
tests-IsAllowed none grounded path m s k =
    let apart = or_none _ _ s in
    record {
      matches_none = m;
      unprotected = unprotected path m;
      safe = s;
      no_climb = apart.0;
      relative = apart.1;
      inside = tt;
      known = k;
    }
tests-IsAllowed (some root) grounded path m s k =
    let (candidate, contained) = some-IsContained root path s in
    record {
      matches_none = m;
      unprotected = unprotected path m;
      safe = s;
      no_climb = contained.no_climb;
      relative = contained.relative;
      inside = (candidate, contained);
      known = k;
    }
