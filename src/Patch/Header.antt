-- ===== src/Patch/Header.antt =====
-- HUNK_HEADER_PATTERN of src/packages/shared/patch_validator.py:
-- `^@@\s+-(\d+)(?:,(\d+))?\s+\+(\d+)(?:,(\d+))?\s+@@(.*)$`. No step of the pattern has two ways to
-- go on, so a match is read from left to right. That `int` refuses a number of more than 4300 digits
-- is not modelled.
use akesis.Common.{
  ℕ, String, Option, none, some, List, [], ◌∷◌, ◌==◌, nat_eq, string_eq, if◌then◌else◌, codes,
  is_space, is_digit, read_digits, skip_space, ◌>>=◌,
}

-- the rest of a text after the characters it starts with
abbrev pub expect : List ℕ → List ℕ → Option (List ℕ)
expect [] s = some s
expect (d ∷ t) [] = none
expect (d ∷ t) (c ∷ s) = let rest = expect t s in if c == d then rest else none

-- `\s+`
abbrev pub spaces : List ℕ → Option (List ℕ)
spaces [] = none
spaces (c ∷ s) = if is_space c then some (skip_space s) else none

-- `(\d+)`
abbrev pub number : List ℕ → Option (ℕ × List ℕ)
number [] = none
number (c ∷ s) = if is_digit c then some (read_digits 0 (c ∷ s)) else none

-- `(?:,(\d+))?`, where a count that is left out is 1
abbrev pub count : List ℕ → Option (ℕ × List ℕ)
count [] = some (1, [])
count (c ∷ s) = if c == b',' then number s else some (1, c ∷ s)

pub record HunkRange : Type 0 where
  pub old_start : ℕ
  pub old_lines : ℕ
  pub new_start : ℕ
  pub new_lines : ℕ

unfoldable pub match_hunk_header : String → Option HunkRange
match_hunk_header line = do
  marked ← expect (codes "@@") (codes line)
  spaced ← spaces marked
  minus ← expect (codes "-") spaced
  old_start ← number minus
  old_lines ← count old_start.1
  between ← spaces old_lines.1
  plus ← expect (codes "+") between
  new_start ← number plus
  new_lines ← count new_start.1
  last ← spaces new_lines.1
  closed ← expect (codes "@@") last
  some (record {
    old_start = old_start.0;
    old_lines = old_lines.0;
    new_start = new_start.0;
    new_lines = new_lines.0;
  })
