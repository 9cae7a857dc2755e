-- ===== src/Common/TextLaws.antt =====
-- Laws of texts: their code points, their lines, and the decimal digits of a number.
use Prim.Native.Nat.{ℕ, zero, suc, ◌+◌, ◌-◌, ◌*◌, ◌/◌, ◌%◌, ◌<◌}
use Prim.Native.Char.{code}
use Prim.Native.String.{String, ◌++◌ as str_append}
use mathlib.Core.Logic.{inl, inr}
use mathlib.Core.Path.{◌≡◌, refl, ap, ◌∙◌}
use mathlib.Core.Bool.{Bool, true, not}
use mathlib.Core.List.{List, [], ◌∷◌, ◌++◌}
use native.Mathlib.Omega.{arith}
use text.Mathlib.TextLemmas.{nil-append, cons-append}
use akesis.Common.Tests.{nat_eq, ltb, Bool-cases}
use akesis.Common.Text.{codes, decimal, decimal_digit, decimal_from}
use akesis.Common.Lines.{is_digit, read_digits}

pub codes-append : (s t : String) → codes (str_append s t) ≡ codes s ++ codes t
codes-append String.[] t = ap codes (nil-append t)
codes-append (String.◌∷◌ c s) t =
    ap codes (cons-append c s t) ∙ ap (λ cs. code c ∷ cs) (codes-append s t)

codes-decimal_digit : (d : ℕ) → d < 10 → codes (decimal_digit d) ≡ (b'0' + d) ∷ []
unfolding decimal_digit
codes-decimal_digit zero h = refl
codes-decimal_digit (suc zero) h = refl
codes-decimal_digit (suc (suc zero)) h = refl
codes-decimal_digit (suc (suc (suc zero))) h = refl
codes-decimal_digit (suc (suc (suc (suc zero)))) h = refl
codes-decimal_digit (suc (suc (suc (suc (suc zero))))) h = refl
codes-decimal_digit (suc (suc (suc (suc (suc (suc zero)))))) h = refl
codes-decimal_digit (suc (suc (suc (suc (suc (suc (suc zero))))))) h = refl
codes-decimal_digit (suc (suc (suc (suc (suc (suc (suc (suc zero)))))))) h = refl
codes-decimal_digit (suc (suc (suc (suc (suc (suc (suc (suc (suc zero))))))))) h = refl
codes-decimal_digit (suc (suc (suc (suc (suc (suc (suc (suc (suc (suc n)))))))))) h = ground arith

read_digit :
    (n d : ℕ) (s : List ℕ) → d < 10 → read_digits n ((b'0' + d) ∷ s) ≡ read_digits (n * 10 + d) s
read_digit n d s h =
    let digit : is_digit (b'0' + d) ≡ true = ground arith in
    let value : b'0' + d - b'0' ≡ d = omega arith in rw (digit, value) refl

digit-append :
    (d : ℕ) (s : String) (t : List ℕ)
    → d < 10
    → codes (str_append (decimal_digit d) s) ++ t ≡ (b'0' + d) ∷ (codes s ++ t)
digit-append d s t h = rw (codes-append, codes-decimal_digit d h) refl

read_digits-decimal_from :
    (fuel n : ℕ) (acc : String) (t : List ℕ)
    → n < fuel
    → read_digits 0 (codes (decimal_from fuel n acc) ++ t) ≡ read_digits n (codes acc ++ t)
unfolding decimal_from
read_digits-decimal_from zero n acc t h = ground arith
read_digits-decimal_from (suc fuel) n acc t h = elim (Bool-cases (ltb n 10)) [
  | inl small ↦
      let less : n < 10 = ground arith in
      let value : 0 * 10 + n ≡ n = omega arith in
      rw (small, digit-append n acc t less)
        (read_digit 0 n (codes acc ++ t) less ∙ ap (λ k. read_digits k (codes acc ++ t)) value)
  | inr large ↦
      let less : n % 10 < 10 = omega arith in
      let whole : n / 10 * 10 + n % 10 ≡ n = omega arith in
      let smaller : n / 10 < fuel = ground arith in
      rw large (
        read_digits-decimal_from fuel (n / 10) (str_append (decimal_digit (n % 10)) acc) t smaller
        ∙ rw (digit-append (n % 10) acc t less) (
            read_digit (n / 10) (n % 10) (codes acc ++ t) less
            ∙ ap (λ k. read_digits k (codes acc ++ t)) whole))
]

-- The text does not start with a digit.
abbrev pub starts_digitless : List ℕ → Bool
starts_digitless [] = true
starts_digitless (c ∷ t) = not (is_digit c)

read_digits-digitless : (n : ℕ) (t : List ℕ) → starts_digitless t ≡ true → read_digits n t ≡ (n, t)
read_digits-digitless n [] h = refl
read_digits-digitless n (c ∷ t) h = ground arith

-- The digits of a number are read back.
pub read_digits-decimal :
    (n : ℕ) (t : List ℕ)
    → starts_digitless t ≡ true
    → read_digits 0 (codes (decimal n) ++ t) ≡ (n, t)
unfolding decimal
read_digits-decimal n t h =
    read_digits-decimal_from (suc n) n "" t (omega arith) ∙ read_digits-digitless n t h

-- The first character of a number is a digit.
pub record StartsDigit (s : List ℕ) : Type 0 where
  pub digit : ℕ
  pub rest : List ℕ
  pub is_first : s ≡ digit ∷ rest
  pub is_decimal : is_digit digit ≡ true

decimal_from-StartsDigit :
    (fuel n : ℕ) (acc : String) → n < fuel → StartsDigit (codes (decimal_from fuel n acc))
unfolding decimal_from
decimal_from-StartsDigit zero n acc h = ground arith
decimal_from-StartsDigit (suc fuel) n acc h = elim (Bool-cases (ltb n 10)) [
  | inl small ↦
      let less : n < 10 = ground arith in
      rw small (record {
        digit = b'0' + n;
        rest = codes acc;
        is_first = rw (codes-append, codes-decimal_digit n less) refl;
        is_decimal = ground arith;
      })
  | inr large ↦ rw large (
      decimal_from-StartsDigit fuel (n / 10) (str_append (decimal_digit (n % 10)) acc)
        (ground arith))
]

pub decimal-StartsDigit : (n : ℕ) → StartsDigit (codes (decimal n))
unfolding decimal
decimal-StartsDigit n = decimal_from-StartsDigit (suc n) n "" (omega arith)
