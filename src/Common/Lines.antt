-- ===== src/Common/Lines.antt =====
-- Python's `str` by characters: lines, white space, prefixes and suffixes. The digits that a pattern
-- or `int` reads are 0 to 9, and only A to Z have another case.
use Prim.Native.Nat.{ℕ, zero, suc, ◌+◌, ◌-◌, ◌*◌}
use Prim.Native.Char.{Char, code}
use Prim.Native.String.{String}
use mathlib.Core.Bool.{Bool, false, ◌&&◌, ◌||◌}
use mathlib.Core.Option.{Option, none, some}
use mathlib.Core.List.{List, [], ◌∷◌}
use akesis.Common.Tests.{nat_eq, leb, ◌==◌, if◌then◌else◌}
use akesis.Common.Text.{codes, starts, same_codes, is_blank}

-- `lo <= c <= hi`
abbrev pub within : ℕ → ℕ → ℕ → Bool
within lo hi c = leb lo c && leb c hi

-- `str.isspace`, and `\s` of a pattern
abbrev pub is_space : ℕ → Bool
is_space c =
    within 9 13 c
    || (within 28 32 c
        || (c == 133
            || (c == 160
                || (c == 5760
                    || (within 8192 8202 c
                        || (within 8232 8233 c || (c == 8239 || (c == 8287 || c == 12288))))))))

-- where `str.splitlines` ends a line
abbrev pub is_break : ℕ → Bool
is_break c = within 10 13 c || (within 28 30 c || (c == 133 || within 8232 8233 c))

abbrev pub is_digit : ℕ → Bool
is_digit c = within b'0' b'9' c

-- a character in front of the first line
abbrev pub onto : Char → List String → List String
onto c [] = String.◌∷◌ c String.[] ∷ []
onto c (l ∷ ls) = String.◌∷◌ c l ∷ ls

-- after a carriage return, a line feed ends no other line
abbrev pub lines_from : Bool → String → List String
lines_from after_cr String.[] = []
lines_from after_cr (String.◌∷◌ c s) =
    let joined = lines_from false s in
    let ended = lines_from (code c == 13) s in
    if after_cr && code c == 10
    then joined
    else if is_break (code c)
    then String.[] ∷ ended
    else onto c joined

-- `s.splitlines()`
abbrev pub split_lines : String → List String
split_lines s = lines_from false s

-- `s.lstrip()`, of the characters that pass a test
abbrev pub strip_left : (ℕ → Bool) → String → String
strip_left p String.[] = String.[]
strip_left p (String.◌∷◌ c s) =
    let rest = strip_left p s in if p (code c) then rest else String.◌∷◌ c s

-- `s.rstrip()`
abbrev pub strip_right : (ℕ → Bool) → String → String
strip_right p String.[] = String.[]
strip_right p (String.◌∷◌ c s) =
    let rest = strip_right p s in
    if is_blank rest && p (code c) then String.[] else String.◌∷◌ c rest

-- `s.strip()`
abbrev pub strip : String → String
strip s = strip_right is_space (strip_left is_space s)

-- `s[n:]`
abbrev pub drop : ℕ → String → String
drop zero s = s
drop (suc n) String.[] = String.[]
drop (suc n) (String.◌∷◌ c s) = drop n s

-- `s.startswith(t)`
abbrev pub starts_with : String → String → Bool
starts_with s t = starts (codes s) (codes t)

-- `s.endswith(t)`, by characters
abbrev pub ends : List ℕ → List ℕ → Bool
ends [] t = same_codes [] t
ends (c ∷ s) t = same_codes (c ∷ s) t || ends s t

-- what follows the first place where `t`, of `n` characters, stands in a text
abbrev pub after_first : String → ℕ → String → Option String
after_first t n String.[] = if starts_with String.[] t then some String.[] else none
after_first t n (String.◌∷◌ c s) =
    let later = after_first t n s in
    if starts_with (String.◌∷◌ c s) t then some (drop n (String.◌∷◌ c s)) else later

-- what precedes the first character that passes a test
abbrev pub until : (ℕ → Bool) → String → String
until p String.[] = String.[]
until p (String.◌∷◌ c s) =
    let rest = until p s in if p (code c) then String.[] else String.◌∷◌ c rest

-- `s.replace(a, b)` of one character by another
abbrev pub replace_char : ℕ → Char → String → String
replace_char a b String.[] = String.[]
replace_char a b (String.◌∷◌ c s) =
    let rest = replace_char a b s in if code c == a then String.◌∷◌ b rest else String.◌∷◌ c rest

-- the digits at the front, read onto `n`, and what follows them
abbrev pub read_digits : ℕ → List ℕ → ℕ × List ℕ
read_digits n [] = (n, [])
read_digits n (c ∷ cs) =
    let read = read_digits (n * 10 + (c - b'0')) cs in if is_digit c then read else (n, c ∷ cs)

-- the white space at the front is dropped
abbrev pub skip_space : List ℕ → List ℕ
skip_space [] = []
skip_space (c ∷ cs) = let rest = skip_space cs in if is_space c then rest else c ∷ cs
