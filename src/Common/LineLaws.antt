-- ===== src/Common/LineLaws.antt =====
-- `str.splitlines` undoes `"\n".join`.
use Prim.Native.String.{String, ◌++◌ as str_append}
use mathlib.Core.Path.{◌≡◌, refl, ap, ◌∙◌}
use mathlib.Core.Bool.{false}
use mathlib.Core.List.{List, [], ◌∷◌}
use native.Mathlib.Omega.{arith}
use text.Mathlib.TextLemmas.{nil-append, cons-append}
use akesis.Common.Lists.{All, length}
use akesis.Common.Text.{codes, is_blank, join}
use akesis.Common.Lines.{is_break, drop, lines_from, split_lines, onto}

-- A text that `splitlines` gives back as its only line.
pub record IsLine (l : String) : Type 0 where
  pub unbroken : All (λ c. is_break c ≡ false) (codes l)
  pub not_blank : is_blank l ≡ false

unbroken-newline :
    (l rest : String)
    → All (λ c. is_break c ≡ false) (codes l)
    → lines_from false (str_append l (str_append "\n" rest)) ≡ l ∷ lines_from false rest
unbroken-newline String.[] rest h =
    rw (nil-append (str_append "\n" rest), cons-append "\n" "" rest, nil-append rest) refl
unbroken-newline (String.◌∷◌ c l) rest h =
    ap (lines_from false) (cons-append c l (str_append "\n" rest))
    ∙ rw (h.0) (ap (onto c) (unbroken-newline l rest h.1))

unbroken-last : (l : String) → IsLine l → lines_from false l ≡ l ∷ []
unbroken-last String.[] h = ground arith
unbroken-last (String.◌∷◌ c String.[]) h = rw (h.unbroken.0) refl
unbroken-last (String.◌∷◌ c (String.◌∷◌ d l)) h = rw (h.unbroken.0) (
    ap (onto c)
      (unbroken-last (String.◌∷◌ d l) (record { unbroken = h.unbroken.1; not_blank = refl })))

pub split_lines-join : (ls : List String) → All IsLine ls → split_lines (join "\n" ls) ≡ ls
split_lines-join [] h = refl
split_lines-join (l ∷ []) h = unbroken-last l h.0
split_lines-join (l ∷ m ∷ ls) h =
    unbroken-newline l (join "\n" (m ∷ ls)) h.0.unbroken
    ∙ ap (λ ls. l ∷ ls) (split_lines-join (m ∷ ls) h.1)

pub drop-append : (t s : String) → drop (length (codes t)) (str_append t s) ≡ s
drop-append String.[] s = nil-append s
drop-append (String.◌∷◌ c t) s = rw (cons-append c t s) (drop-append t s)
