-- ===== src/Patch/Patterns.antt =====
-- The patterns of src/packages/shared/patch_validator.py on the code points of a path. Where a
-- pattern ends in `$`, a line feed may end the path; `\w` is taken as letters, digits and underscores
-- of ASCII, and case is that of A to Z.
use akesis.Common.{
  ℕ, String, Bool, false, not, ◌&&◌, ◌||◌, Option, none, some, List, [], ◌∷◌, ◌++◌, map, ◌==◌,
  nat_eq, string_eq, if◌then◌else◌, codes, lower, starts, has_part, same_codes, any, within,
  is_digit, ends,
}

-- the whole of a text, for `^...$`
abbrev pub is_whole : List ℕ → List ℕ → Bool
is_whole s t = same_codes s t || same_codes s (t ++ 10 ∷ [])

-- the end of a text, for `...$`
abbrev pub at_end : List ℕ → List ℕ → Bool
at_end s t = ends s t || ends s (t ++ 10 ∷ [])

-- `.+$`
abbrev pub some_line : List ℕ → Bool
some_line [] = false
some_line (c ∷ []) = not (c == 10)
some_line (c ∷ d ∷ cs) = not (c == 10) && (some_line (d ∷ cs) || is_whole (d ∷ cs) [])

-- what follows `t` in a text that starts with it
abbrev pub rest_of : List ℕ → List ℕ → Option (List ℕ)
rest_of s [] = some s
rest_of [] (d ∷ t) = none
rest_of (c ∷ s) (d ∷ t) = let rest = rest_of s t in if c == d then rest else none

-- `^\.env(\..+)?$`
unfoldable pub is_env : List ℕ → Bool
is_env s =
    is_whole s (codes ".env")
    || (elim (rest_of s (codes ".env.")) [ none ↦ false | some r ↦ some_line r ])

abbrev pub binary_extensions : List String
binary_extensions =
    ".exe" ∷ ".dll" ∷ ".so" ∷ ".dylib" ∷ ".bin" ∷ ".pyc" ∷ ".pyd" ∷ ".whl" ∷ ".tar" ∷ ".gz" ∷ ".zip"
    ∷ ".png" ∷ ".jpg" ∷ ".jpeg" ∷ ".gif" ∷ ".ico" ∷ []

unfoldable pub is_binary : List ℕ → Bool
is_binary s = any (λ x. at_end (map lower s) (codes x)) binary_extensions

-- PROTECTED_PATH_PATTERNS, each with its test
unfoldable pub protected_patterns : List (List ℕ → Bool)
unfolding is_env is_binary
protected_patterns =
    (λ s. starts s (codes ".github/workflows/"))
    ∷ (λ s. starts s (codes ".git/"))
    ∷ is_env
    ∷ is_binary
    ∷ []

-- `\.py$`, after characters that are not a slash
abbrev pub py_tail : List ℕ → Bool
py_tail [] = false
py_tail (c ∷ cs) = is_whole (c ∷ cs) (codes ".py") || (not (c == b'/') && py_tail cs)

-- `test_[^/]+\.py$` at this place
abbrev pub test_here : List ℕ → Bool
test_here s = elim (rest_of s (codes "test_")) [
  | none ↦ false
  | some [] ↦ false
  | some (c ∷ cs) ↦ not (c == b'/') && py_tail cs
]

abbrev pub anywhere : (List ℕ → Bool) → List ℕ → Bool
anywhere f [] = f []
anywhere f (c ∷ s) = f (c ∷ s) || anywhere f s

-- TEST_FILE_PATTERNS
unfoldable pub is_test_lower : List ℕ → Bool
is_test_lower s =
    (starts s (codes "test/") || starts s (codes "tests/"))
    || ((has_part s (codes "/test/") || has_part s (codes "/tests/"))
        || (at_end s (codes "_test.py") || anywhere test_here s))

unfoldable pub is_test_file : String → Bool
unfolding is_test_lower
is_test_file path = is_test_lower (map lower (codes path))

abbrev pub is_word : ℕ → Bool
is_word c = within b'a' b'z' c || (within b'A' b'Z' c || (is_digit c || c == b'_'))

-- `\w+\.txt$`
abbrev pub word_txt : List ℕ → Bool
word_txt [] = false
word_txt (c ∷ cs) = is_word c && (is_whole cs (codes ".txt") || word_txt cs)

-- `^requirements(-\w+)?\.txt$`
unfoldable pub is_requirements : List ℕ → Bool
is_requirements s =
    is_whole s (codes "requirements.txt")
    || (elim (rest_of s (codes "requirements-")) [ none ↦ false | some r ↦ word_txt r ])

abbrev pub dependency_files : List String
dependency_files =
    "pyproject.toml" ∷ "setup.py" ∷ "setup.cfg" ∷ "Pipfile" ∷ "Pipfile.lock" ∷ "poetry.lock"
    ∷ "uv.lock" ∷ []

-- DEPENDENCY_PATH_PATTERNS
unfoldable pub is_dependency_file : String → Bool
unfolding is_requirements
is_dependency_file path =
    is_requirements (codes path) || any (λ f. is_whole (codes path) (codes f)) dependency_files
