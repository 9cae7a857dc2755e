-- ===== src/Logs/Clean.antt =====
-- What src/packages/shared/log_parser.py does with the text of a log: escape sequences, line ends, and
-- the lines around a place.
use akesis.Common.{
  ℕ, zero, suc, ◌+◌, ◌-◌, min, String, Option, none, some, List, [], ◌∷◌, ◌==◌, nat_eq, string_eq,
  if◌then◌else◌, leb, codes, length, join, within, split_lines, starts_with, take, skip,
}
use Prim.Native.Char.{code}

-- the length of `(?:\[[0-?]*[ -/]*[@-~])` at the front, once its bracket and its parameters, and its
-- intermediates, are passed
abbrev pub intermediates : List ℕ → Option ℕ
intermediates [] = none
intermediates (c ∷ cs) =
    let rest = intermediates cs in
    if within 32 47 c
    then elim rest [ none ↦ none | some n ↦ some (suc n) ]
    else if within 64 126 c
    then some 1
    else none

abbrev pub parameters : List ℕ → Option ℕ
parameters [] = none
parameters (c ∷ cs) =
    let rest = parameters cs in
    if within 48 63 c
    then elim rest [ none ↦ none | some n ↦ some (suc n) ]
    else intermediates (c ∷ cs)

-- how many characters after the escape character ANSI_ESCAPE_PATTERN takes
abbrev pub escape_length : List ℕ → Option ℕ
escape_length [] = none
escape_length (c ∷ cs) =
    if c == b'[' then elim (parameters cs) [ none ↦ none | some n ↦ some (suc n) ] else none

-- the first number is how many characters of a sequence are left to drop
abbrev pub strip_from : ℕ → String → String
strip_from n String.[] = String.[]
strip_from (suc n) (String.◌∷◌ c s) = strip_from n s
strip_from zero (String.◌∷◌ c s) =
    let kept = String.◌∷◌ c (strip_from zero s) in
    if code c == 27
    then elim (escape_length (codes s)) [ none ↦ kept | some n ↦ strip_from n s ]
    else kept

unfoldable pub strip_ansi_codes : String → String
strip_ansi_codes text = strip_from 0 text

-- `.replace("\r\n", "\n").replace("\r", "\n")`
abbrev pub unify_lines : String → String
unify_lines String.[] = String.[]
unify_lines (String.◌∷◌ c s) =
    let rest = unify_lines s in
    if code c == 13
    then if starts_with s "\n" then rest else String.◌∷◌ "\n" rest
    else String.◌∷◌ c rest

-- the index of the line in which the place lies, where `idx` and `cur_pos` are those of the first one
-- that is left; 0 if the lines end before it
abbrev pub line_at : ℕ → ℕ → ℕ → List String → ℕ
line_at char_pos idx cur_pos [] = 0
line_at char_pos idx cur_pos (line ∷ lines) =
    let next = cur_pos + (length (codes line) + 1) in
    let rest = line_at char_pos (suc idx) next lines in if leb char_pos next then idx else rest

-- `lines[start:end]`
abbrev pub slice : ℕ → ℕ → List String → List String
slice start end lines = take (end - start) (skip start lines)

unfoldable pub surrounding_lines : String → ℕ → ℕ → List String
surrounding_lines text char_pos window =
    let lines = split_lines text in
    let target = line_at char_pos 0 0 lines in
    slice (target - window) (min (length lines) (target + window + 1)) lines

unfoldable pub extract_surrounding_lines : String → ℕ → ℕ → String
unfolding surrounding_lines
extract_surrounding_lines text char_pos window = join "\n" (surrounding_lines text char_pos window)
