-- ===== src/Patch/HeaderRoundTrip.antt =====
-- The hunk headers of a unified diff, printed and read back.
use akesis.Common.{
  ℕ, String, ◌≡◌, refl, sym, ap, ◌∙◌, true, some, List, [], ◌∷◌, ◌++◌, nat_eq, string_eq, codes,
  concat, decimal, is_digit, read_digits, codes-append, read_digits-decimal, starts_digitless,
  StartsDigit, decimal-StartsDigit,
}
use akesis.Patch.Header.{HunkRange, match_hunk_header, number}

-- A hunk header as `diff -u` writes it, with what it prints after the second `@@`.
abbrev pub print_header : HunkRange → String → String
print_header r section = concat (
    "@@ -"
    ∷ decimal r.old_start
    ∷ ","
    ∷ decimal r.old_lines
    ∷ " +"
    ∷ decimal r.new_start
    ∷ ","
    ∷ decimal r.new_lines
    ∷ " @@"
    ∷ section
    ∷ [])

abbrev concat_codes : List String → List ℕ
concat_codes [] = []
concat_codes (s ∷ ss) = codes s ++ concat_codes ss

codes-concat : (ss : List String) → codes (concat ss) ≡ concat_codes ss
codes-concat [] = refl
codes-concat (s ∷ ss) = codes-append s (concat ss) ∙ ap (λ t. codes s ++ t) (codes-concat ss)

number-digit :
    (c : ℕ) (s : List ℕ) (read : ℕ × List ℕ)
    → is_digit c ≡ true
    → read_digits 0 (c ∷ s) ≡ read
    → number (c ∷ s) ≡ some read
number-digit c s read h e = rw h (ap some (rw h at e))

number-digits :
    (s t : List ℕ) (n : ℕ)
    → StartsDigit s
    → read_digits 0 (s ++ t) ≡ (n, t)
    → number (s ++ t) ≡ some (n, t)
number-digits s t n first read = rw (first.is_first) (
    number-digit first.digit (first.rest ++ t) (n, t) first.is_decimal
      (ap (λ u. read_digits 0 (u ++ t)) (sym first.is_first) ∙ read))

number-decimal :
    (n : ℕ) (t : List ℕ) → starts_digitless t ≡ true → number (codes (decimal n) ++ t) ≡ some (n, t)
number-decimal n t h =
    number-digits (codes (decimal n)) t n (decimal-StartsDigit n) (read_digits-decimal n t h)

-- A header that is printed is read as its four numbers.
pub match_hunk_header-print :
    (r : HunkRange) (section : String) → match_hunk_header (print_header r section) ≡ some r
unfolding match_hunk_header
match_hunk_header-print r section = rw codes-concat (
    rw
      (
        number-decimal r.old_start _ refl,
        number-decimal r.old_lines _ refl,
        number-decimal r.new_start _ refl,
        number-decimal r.new_lines _ refl,
      )
      refl)
