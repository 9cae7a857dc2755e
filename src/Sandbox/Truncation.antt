-- ===== src/Sandbox/Truncation.antt =====
-- The sizes of what `_truncate_output` keeps.
use akesis.Common.{
  ℕ, zero, suc, ◌-◌, ◌/◌, ◌≤◌, ◌<◌, String, ◌≡◌, refl, sym, ap, ◌∙◌, ◌⊎◌, inl, inr, true, false,
  List, [], ◌∷◌, ◌++◌, arith, ◌==◌, nat_eq, string_eq, leb, Bool-cases, codes, length, concat,
  prefix, drop, list_append_nil, codes-append,
}
use Prim.Native.Char.{code}
use akesis.Sandbox.Runner.{truncate_output, last_part}

length-prefix : (n : ℕ) (s : String) → n ≤ length (codes s) → length (codes (prefix n s)) ≡ n
length-prefix zero s h = refl
length-prefix (suc n) String.[] h = omega arith
length-prefix (suc n) (String.◌∷◌ c s) h = omega (arith, length-prefix n s (omega arith))

length-drop : (n : ℕ) (s : String) → length (codes (drop n s)) ≡ length (codes s) - n
length-drop zero s = omega arith
length-drop (suc n) String.[] = omega arith
length-drop (suc n) (String.◌∷◌ c s) = omega (arith, length-drop n s)

prefix-drop : (n : ℕ) (s : String) → codes (prefix n s) ++ codes (drop n s) ≡ codes s
prefix-drop zero s = refl
prefix-drop (suc n) String.[] = refl
prefix-drop (suc n) (String.◌∷◌ c s) = ap (λ cs. code c ∷ cs) (prefix-drop n s)

-- What is left from a later place on ends what is left from an earlier one on.
drop-later :
    (n k : ℕ) (s : String)
    → n ≤ k
    → (middle : List ℕ) × (codes (drop n s) ≡ middle ++ codes (drop k s))
drop-later zero k s h = (codes (prefix k s), sym (prefix-drop k s))
drop-later (suc n) zero s h = let e : ⊥ = omega (arith, h) in elim e [ ]
drop-later (suc n) (suc k) String.[] h = ([], refl)
drop-later (suc n) (suc k) (String.◌∷◌ c s) h = drop-later n k s (omega arith)

abbrev pub marker : List ℕ
marker = codes "\n\n[... output truncated ...]\n\n"

-- What is kept of a text.
pub data IsTruncated (max_chars : ℕ) (text result : String) : Type 0 where
  whole : length (codes text) ≤ max_chars → result ≡ text → IsTruncated max_chars text result
  cut :
      2 ≤ max_chars
      → max_chars < length (codes text)
      → (front middle back : List ℕ) → codes text ≡ front ++ (middle ++ back)
      → length front ≡ max_chars / 2
      → length back ≡ max_chars / 2
      → codes result ≡ front ++ (marker ++ back)
      → IsTruncated max_chars text result
  grown :
      max_chars < 2
      → max_chars < length (codes text)
      → codes result ≡ marker ++ codes text
      → IsTruncated max_chars text result

pieces : (p m s : String) → codes (concat (p ∷ m ∷ s ∷ [])) ≡ codes p ++ (codes m ++ codes s)
pieces p m s = rw (codes-append, codes-append, codes-append, list_append_nil (codes s)) refl

-- for a limit of 2 or more, the two ends and what is between them
half : (m : ℕ) → 2 ≤ m → (m / 2 == 0) ≡ false
half m h = ground arith

no_half : (m : ℕ) → m < 2 → m / 2 ≡ 0
no_half m h = omega arith

cut-ends :
    (max_chars : ℕ) (s : String)
    → 2 ≤ max_chars
    → max_chars < length (codes s)
    → last_part (max_chars / 2) s ≡ drop (length (codes s) - max_chars / 2) s
    → IsTruncated max_chars s (
        concat (
          prefix (max_chars / 2) s
          ∷ "\n\n[... output truncated ...]\n\n"
          ∷ last_part (max_chars / 2) s
          ∷ []))
cut-ends m s two long last =
    let n = m / 2 in
    let k = length (codes s) - n in
    let (middle, rest) = drop-later n k s (omega arith) in
    IsTruncated.cut two long (codes (prefix n s)) middle (codes (drop k s))
      (sym (prefix-drop n s) ∙ ap (λ cs. codes (prefix n s) ++ cs) rest)
      (length-prefix n s (omega arith)) (length-drop k s ∙ omega arith)
      (pieces (prefix n s) _ (last_part n s)
        ∙ ap (λ t. codes (prefix n s) ++ (marker ++ codes t)) last)

longer :
    (m : ℕ) (s : String)
    → m < length (codes s)
    → (leb 2 m ≡ true) ⊎ (leb 2 m ≡ false)
    → IsTruncated m s (
        concat (prefix (m / 2) s ∷ "\n\n[... output truncated ...]\n\n" ∷ last_part (m / 2) s ∷ []))
longer m s long (inl two) = cut-ends m s (ground arith) long (rw (half m (ground arith)) refl)
longer m s long (inr less) =
    IsTruncated.grown (ground arith) long (rw (no_half m (ground arith)) (pieces "" _ s))

-- `_truncate_output` leaves a text within the limit as it is. Of a longer one it keeps, for a limit
-- of 2 or more, its first and its last characters, half the limit of each, around a marker in place
-- of what is between them; for a limit below 2 it keeps the whole text, behind the marker.
pub truncate_output-IsTruncated :
    (max_chars : ℕ) (text : String) → IsTruncated max_chars text (truncate_output max_chars text)
unfolding truncate_output
truncate_output-IsTruncated m s = elim (Bool-cases (leb (length (codes s)) m)) [
  | inl short ↦ rw short (IsTruncated.whole (ground arith) refl)
  | inr long ↦ rw long (longer m s (ground arith) (Bool-cases (leb 2 m)))
]
