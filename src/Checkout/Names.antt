-- ===== src/Checkout/Names.antt =====
-- What the patterns of names and commits accept.
use akesis.Common.{
  ℕ, String, ◌≡◌, refl, ap, ◌⊎◌, inl, inr, Bool, true, ◌&&◌, List, [], ◌∷◌, ◌++◌, ◌==◌, nat_eq,
  string_eq, leb, Bool-cases, codes, length, all, and_left, and_right,
}
use akesis.Checkout.{is_identifier, is_commit_sha, before_newline, is_name_char, is_hex}

-- A text of such characters, of a length that fits, or such a text and a line feed.
abbrev pub IsSpelled : (ℕ → Bool) → (ℕ → Bool) → String → Type 0
IsSpelled p fits s =
    (body : List ℕ) × (all p body ≡ true)
    × (fits (length body) ≡ true)
    × ((codes s ≡ body) ⊎ (codes s ≡ body ++ 10 ∷ []))

before_newline-cases : (s : List ℕ) → (s ≡ before_newline s) ⊎ (s ≡ before_newline s ++ 10 ∷ [])
before_newline-cases [] = inl refl
before_newline-cases (c ∷ []) = elim (Bool-cases (c == 10)) [
  | inl e ↦ let f : c ≡ 10 = (nat_eq.same_iff c 10).0 e in inr (rw (e, f) refl)
  | inr e ↦ inl (rw e refl)
]
before_newline-cases (c ∷ d ∷ s) = elim (before_newline-cases (d ∷ s)) [
  | inl e ↦ inl (ap (λ t. c ∷ t) e)
  | inr e ↦ inr (ap (λ t. c ∷ t) e)
]

pub is_identifier-IsSpelled :
    (s : String) → is_identifier s ≡ true → IsSpelled is_name_char (leb 1) s
unfolding is_identifier
is_identifier-IsSpelled s h =
    (before_newline (codes s), and_left _ _ h, and_right _ _ h, before_newline-cases (codes s))

pub is_commit_sha-IsSpelled :
    (s : String) → is_commit_sha s ≡ true → IsSpelled is_hex (λ n. leb 7 n && leb n 40) s
unfolding is_commit_sha
is_commit_sha-IsSpelled s h =
    (before_newline (codes s), and_left _ _ h, and_right _ _ h, before_newline-cases (codes s))
