-- ===== src/Paths.antt =====
-- `normalize_repo_relative_path` and `is_path_safe_and_within_root` of
-- src/packages/shared/context_resolver.py. Files are reached through a checkout, whose answers are a
-- parameter.
pub mod Shape
use akesis.Common.{
  ℕ, zero, suc, ◌+◌, ◌-◌, ◌*◌, ◌/◌, ◌%◌, ◌≤◌, ◌<◌, min, max, String, ◌≡◌, refl, sym, ap, ◌∙◌, ◌≢◌,
  ◌↔◌, ◌⊎◌, inl, inr, Bool, true, false, not, ◌&&◌, ◌||◌, Option, none, some, List, [], ◌∷◌, ◌++◌,
  map, arith, eq_iff, eq_refl, Eq, ◌==◌, nat_eq, string_eq, if◌then◌else◌, ltb, leb, Bool-cases,
  Option-cases, and-false, codes, keep, lower, starts, has_part, last_is, same_codes, is_some,
  or_else, length, is_empty, any, all, select, update, length-append, All, contains, dedupe, concat,
  join, prefix, is_blank, text_or, decimal, within, is_space, is_break, is_digit, onto, lines_from,
  split_lines, strip_left, strip_right, strip, drop, starts_with, ends, after_first, until,
  replace_char, read_digits, skip_space,
}
use akesis.Runtime.{Result, ok, err}

-- What pathlib and the file system answer of one checked-out repository; a path is its text.
pub record Checkout : Type 0 where
  -- `(repo_root / target).resolve()`, and whether it `is_relative_to` the resolved root
  pub resolve : String → Result (String × Bool)
  pub is_file : String → Bool
  -- `stat().st_size`
  pub size : String → Result ℕ
  -- `readlines()`
  pub read_lines : String → Result (List String)
  -- `suffix.lower()`
  pub suffix : String → String

abbrev pub common_runner_prefixes : List String
common_runner_prefixes = "/home/runner/work/" ∷ "/workspace/" ∷ "/app/" ∷ "/runner/" ∷ "/root/" ∷ []

abbrev is_slash : ℕ → Bool
is_slash c = c == b'/'

-- the first folder of a runner's path is dropped, unless it is a file's name
abbrev pub drop_folder : String → String
drop_folder sub = elim (after_first "/" 1 sub) [
  | none ↦ sub
  | some rest ↦
      let first = codes (until is_slash sub) in
      if ends first (codes ".py")
        || (ends first (codes ".json") || (ends first (codes ".toml") || ends first (codes ".yml")))
      then sub
      else rest
]

-- `repo_name/` is dropped where it is repeated
abbrev pub drop_repo : String → String → String
drop_repo repo_name sub =
    if not (is_blank repo_name) && starts_with sub (concat (repo_name ∷ "/" ∷ []))
    then drop (suc (length (codes repo_name))) sub
    else sub

-- the loop over the prefixes, which stops at the first that is found
abbrev pub strip_runner : String → List String → String → String
strip_runner repo_name [] s = s
strip_runner repo_name (p ∷ ps) s = elim (after_first p (length (codes p)) s) [
  | none ↦ strip_runner repo_name ps s
  | some sub ↦ drop_folder (drop_repo repo_name sub)
]

unfoldable pub normalize_repo_relative_path : String → String → String
normalize_repo_relative_path raw_path repo_name =
    strip_left is_slash
      (strip_runner repo_name common_runner_prefixes (strip (replace_char b'\\' "/" raw_path)))

-- `not target or ".." in target or target.startswith("/")`
abbrev pub is_unsafe : String → Bool
is_unsafe s = is_blank s || (has_part (codes s) (codes "..") || starts_with s "/")

-- the resolved path, where it lies under the root
abbrev within_root : Result (String × Bool) → Option String
within_root (ok (candidate, true)) = some candidate
within_root (ok (candidate, false)) = none
within_root (err e) = none

unfoldable pub is_path_safe_and_within_root : Checkout → String → Option String
is_path_safe_and_within_root checkout target =
    if is_unsafe target then none else within_root (checkout.resolve target)
