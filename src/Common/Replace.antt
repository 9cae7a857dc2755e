-- ===== src/Common/Replace.antt =====
-- `str.replace` of a part of a text, and that nothing of the part is left.
use Prim.Native.Nat.{ℕ, zero, suc, ◌-◌}
use Prim.Native.Char.{code}
use Prim.Native.String.{String, ◌++◌ as str_append}
use mathlib.Core.Path.{◌≡◌, refl, sym, ◌∙◌}
use mathlib.Core.Logic.{inl, inr}
use mathlib.Core.Bool.{Bool, true, false, not, ◌&&◌, ◌||◌}
use mathlib.Core.List.{List, [], ◌∷◌, ◌++◌}
use akesis.Common.Tests.{nat_eq, ◌==◌, if◌then◌else◌, Bool-cases}
use akesis.Common.Lists.{length}
use akesis.Common.Text.{is_blank, codes, starts, has_part}
use akesis.Common.TextLaws.{codes-append}

-- after `skip` characters that belong to a part already replaced
abbrev pub replace_from : List ℕ → String → ℕ → String → String
replace_from old new skip String.[] = String.[]
replace_from old new zero (String.◌∷◌ c s) =
    let found = starts (codes (String.◌∷◌ c s)) old in
    let rest = replace_from old new (if found then length old - 1 else 0) s in
    if found then str_append new rest else String.◌∷◌ c rest
replace_from old new (suc skip) (String.◌∷◌ c s) = replace_from old new skip s

-- `s.replace(old, new)` of a part that is not empty
unfoldable pub replace_text : String → String → String → String
replace_text s old new = replace_from (codes old) new 0 s

-- two texts differ at a place that both have
abbrev pub clash : List ℕ → List ℕ → Bool
clash [] t = false
clash (c ∷ s) [] = false
clash (c ∷ s) (d ∷ t) = not (c == d) || clash s t

-- every end of the first text differs from the second
abbrev pub ends_clash : List ℕ → List ℕ → Bool
ends_clash [] t = true
ends_clash (c ∷ s) t = clash (c ∷ s) t && ends_clash s t

-- the first text differs from every end of the second
abbrev pub clash_ends : List ℕ → List ℕ → Bool
clash_ends s [] = true
clash_ends s (d ∷ t) = clash s (d ∷ t) && clash_ends s t

-- the replacement cannot be a piece of the part, nor the part overlap it
abbrev pub apart : List ℕ → List ℕ → Bool
apart new old = ends_clash new old && clash_ends new old

pub and_left : (a b : Bool) → (a && b) ≡ true → a ≡ true
and_left true b h = refl
and_left false b h = h

pub and_right : (a b : Bool) → (a && b) ≡ true → b ≡ true
and_right true b h = h
and_right false b h = cc

pub and_intro : (a b : Bool) → a ≡ true → b ≡ true → (a && b) ≡ true
and_intro a b p q = rw (p, q) refl

pub or_intro : (a b : Bool) → a ≡ false → b ≡ false → (a || b) ≡ false
or_intro a b p q = rw (p, q) refl

pub or_left : (a b : Bool) → (a || b) ≡ false → a ≡ false
or_left true b h = h
or_left false b h = refl

pub or_right : (a b : Bool) → (a || b) ≡ false → b ≡ false
or_right true b h = cc
or_right false b h = h

-- a test that cannot hold
pub refute : (b : Bool) → ((b ≡ true) → false ≡ true) → b ≡ false
refute true h = let e = h refl in cc
refute false h = refl

pub clash-starts : (s x t : List ℕ) → clash s t ≡ true → starts (s ++ x) t ≡ false
clash-starts [] x t h = cc
clash-starts (c ∷ s) x [] h = cc
clash-starts (c ∷ s) x (d ∷ t) h = elim (Bool-cases (c == d)) [
  | inl e ↦ rw e (clash-starts s x t (rw e at h))
  | inr e ↦ rw e refl
]

-- a part is found neither in a replacement nor across its borders
pub has_part-append :
    (s x t : List ℕ) → ends_clash s t ≡ true → has_part x t ≡ false → has_part (s ++ x) t ≡ false
has_part-append [] x t h hx = hx
has_part-append (c ∷ s) x t h hx = elim (Bool-cases (clash (c ∷ s) t)) [
  | inl e ↦ rw (clash-starts (c ∷ s) x t e) (has_part-append s x t (rw e at h) hx)
  | inr e ↦ let f : false ≡ true = rw e at h in cc
]

module _ (old : List ℕ) (new : String) where
  found-before :
      (s : String) (t : List ℕ)
      → clash_ends (codes new) t ≡ true
      → starts (codes (replace_from old new 0 s)) t ≡ true
      → starts (codes s) t ≡ true
  found-before s [] h e = refl
  found-before String.[] (d ∷ t) h e = e
  found-before (String.◌∷◌ c s) (d ∷ t) h e =
      let differs : clash (codes new) (d ∷ t) ≡ true = and_left _ _ h in
      elim (Bool-cases (starts (codes (String.◌∷◌ c s)) old)) [
        | inl m ↦
            let rest = replace_from old new (length old - 1) s in
            let f : starts (codes new ++ codes rest) (d ∷ t) ≡ true =
              rw (codes-append new rest) at (rw m at e) in
            let g = clash-starts (codes new) (codes rest) (d ∷ t) differs in cc
        | inr m ↦
            let f : (code c == d && starts (codes (replace_from old new 0 s)) t) ≡ true =
              rw m at e in
            and_intro _ _ (and_left _ _ f) (found-before s t (and_right _ _ h) (and_right _ _ f))
      ]

  all-replaced :
      (skip : ℕ) (s : String)
      → starts [] old ≡ false
      → apart (codes new) old ≡ true
      → has_part (codes (replace_from old new skip s)) old ≡ false
  all-replaced skip String.[] h a = h
  all-replaced (suc skip) (String.◌∷◌ c s) h a = all-replaced skip s h a
  all-replaced zero (String.◌∷◌ c s) h a = elim (Bool-cases (starts (codes (String.◌∷◌ c s)) old)) [
    | inl m ↦
        let rest = replace_from old new (length old - 1) s in
        let tail : has_part (codes rest) old ≡ false = all-replaced (length old - 1) s h a in
        rw (m, codes-append new rest)
          (has_part-append (codes new) (codes rest) old (and_left _ _ a) tail)
    | inr m ↦
        let tail : has_part (codes (replace_from old new 0 s)) old ≡ false = all-replaced 0 s h a in
        let here : starts (codes (replace_from old new 0 (String.◌∷◌ c s))) old ≡ false =
          refute _ (λ e.
            let f : starts (codes (String.◌∷◌ c s)) old ≡ true =
              found-before (String.◌∷◌ c s) old (and_right _ _ a) e in
            sym m ∙ f) in
        rw m (or_intro _ _ (rw m at here) tail)
  ]

pub has_part-replace_text :
    (s old new : String)
    → starts [] (codes old) ≡ false
    → apart (codes new) (codes old) ≡ true
    → has_part (codes (replace_text s old new)) (codes old) ≡ false
unfolding replace_text
has_part-replace_text s old new h a = all-replaced (codes old) new 0 s h a

pub is_blank-starts : (s : String) → is_blank s ≡ false → starts [] (codes s) ≡ false
is_blank-starts String.[] h = cc
is_blank-starts (String.◌∷◌ c s) h = refl
