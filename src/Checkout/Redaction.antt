-- ===== src/Checkout/Redaction.antt =====
-- The messages of git errors do not show the token.
use akesis.Common.{
  ℕ, zero, suc, ◌-◌, String, ◌≡◌, refl, sym, ◌∙◌, inl, inr, true, false, none, some, List, [], ◌∷◌,
  ◌++◌, arith, ◌==◌, nat_eq, string_eq, Bool-cases, Option-cases, codes, starts, has_part, All,
  concat, is_blank, replace_text, has_part-replace_text, is_blank-starts, and_left, and_right,
  and_intro, or_left, or_right, or_intro, refute, list_append_nil, codes-append, clash_ends,
  ends_clash, has_part-append,
}
use akesis.Common.{
  ℕ, zero, suc, ◌-◌, String, ◌≡◌, refl, sym, ◌∙◌, inl, inr, true, false, none, some, List, [], ◌∷◌,
  ◌++◌, arith, ◌==◌, nat_eq, string_eq, Bool-cases, Option-cases, codes, starts, has_part, All,
  concat, is_blank, replace_text, has_part-replace_text, is_blank-starts, and_left, and_right,
  and_intro, or_left, or_right, or_intro, refute, list_append_nil, codes-append,
}
use akesis.Config.{Settings}
use akesis.Checkout.Sanitize.{sanitize_git_message, hide_credentials, credentials}

-- A text without an asterisk.
abbrev pub HasNoStar : List ℕ → Type 0
HasNoStar t = All (λ d. (b'*' == d) ≡ false) t

abbrev stars : List ℕ
stars = b'*' ∷ b'*' ∷ b'*' ∷ []

-- asterisks are no part of such a text
stars-apart : (t : List ℕ) → starts [] t ≡ false → HasNoStar t → ends_clash stars t ≡ true
stars-apart [] k h = cc
stars-apart (d ∷ t) k h = rw (h.0) refl

stars-ends : (t : List ℕ) → HasNoStar t → clash_ends stars t ≡ true
stars-ends [] h = refl
stars-ends (d ∷ t) h = rw (h.0) (stars-ends t h.1)

starts-through :
    (s p t y : List ℕ)
    → HasNoStar t
    → starts s p ≡ true
    → starts (p ++ b'*' ∷ y) t ≡ true
    → starts s t ≡ true
starts-through s p [] y h f e = refl
starts-through s [] (d ∷ t) y h f e = let g : false ≡ true = rw (h.0) at e in cc
starts-through [] (c ∷ p) (d ∷ t) y h f e = cc
starts-through (a ∷ s) (c ∷ p) (d ∷ t) y h f e =
    let tail = starts-through s p t y h.1 in ground (arith, tail)

-- a part that a text does not have is found in no beginning of it that asterisks follow
parts-through :
    (s p t y : List ℕ)
    → HasNoStar t
    → has_part s t ≡ false
    → starts s p ≡ true
    → has_part (b'*' ∷ y) t ≡ false
    → has_part (p ++ b'*' ∷ y) t ≡ false
parts-through s [] t y h n f k = k
parts-through [] (c ∷ p) t y h n f k = cc
parts-through (a ∷ s) (c ∷ p) t y h n f k =
    or_intro _ _ (refute _ (λ e. sym (or_left _ _ n) ∙ starts-through (a ∷ s) (c ∷ p) t y h f e))
      (parts-through s p t y h (or_right _ _ n) (and_right _ _ f) k)

-- what is hidden begins with `https://`
credentials-starts :
    (s : List ℕ) (n : ℕ) → credentials s ≡ some n → starts s (codes "https://") ≡ true
unfolding credentials
credentials-starts s n h = elim (Bool-cases (starts s (codes "https://"))) [
  | inl e ↦ e
  | inr e ↦ let f : none ≡ some n = rw e at h in cc
]

codes-hidden :
    (rest : String) → codes (concat ("https://***" ∷ rest ∷ [])) ≡ codes "https://***" ++ codes rest
codes-hidden rest = rw (codes-append, codes-append, list_append_nil (codes rest)) refl

hidden-before :
    (s : String) (t : List ℕ)
    → HasNoStar t
    → starts (codes (hide_credentials 0 s)) t ≡ true
    → starts (codes s) t ≡ true
hidden-before s [] h e = refl
hidden-before String.[] (d ∷ t) h e = e
hidden-before (String.◌∷◌ c s) (d ∷ t) h e =
    elim (Option-cases (credentials (codes (String.◌∷◌ c s)))) [
      | inl m ↦
          let f = rw m at e in
          and_intro _ _ (and_left _ _ f) (hidden-before s t h.1 (and_right _ _ f))
      | inr (n, m) ↦
          let rest = hide_credentials (n - 1) s in
          let f = rw (codes-hidden rest) at (rw m at e) in
          starts-through (codes (String.◌∷◌ c s)) (codes "https://") (d ∷ t)
            (b'*' ∷ b'*' ∷ codes rest) h (credentials-starts _ n m) f
    ]

hidden-parts :
    (passed : ℕ) (s : String) (t : List ℕ)
    → HasNoStar t
    → starts [] t ≡ false
    → has_part (codes s) t ≡ false
    → has_part (codes (hide_credentials passed s)) t ≡ false
hidden-parts passed String.[] t h k n = n
hidden-parts (suc passed) (String.◌∷◌ c s) t h k n = hidden-parts passed s t h k (or_right _ _ n)
hidden-parts zero (String.◌∷◌ c s) t h k n =
    elim (Option-cases (credentials (codes (String.◌∷◌ c s)))) [
      | inl m ↦
          let tail = hidden-parts 0 s t h k (or_right _ _ n) in
          let here : starts (codes (hide_credentials 0 (String.◌∷◌ c s))) t ≡ false =
            refute _ (λ e. sym (or_left _ _ n) ∙ hidden-before (String.◌∷◌ c s) t h e) in
          rw m (or_intro _ _ (rw m at here) tail)
      | inr (l, m) ↦
          let rest = hide_credentials (l - 1) s in
          let tail = hidden-parts (l - 1) s t h k (or_right _ _ n) in
          rw (m, codes-hidden rest)
            (parts-through (codes (String.◌∷◌ c s)) (codes "https://") t (b'*' ∷ b'*' ∷ codes rest)
              h n (credentials-starts _ l m)
              (has_part-append stars (codes rest) t (stars-apart t k h) tail))
    ]

-- A token that is not empty and has no asterisk is no part of any message that
-- `_sanitize_git_message` gives.
pub sanitize_git_message-redacts :
    (settings : Settings) (msg : String)
    → is_blank settings.github_token ≡ false
    → HasNoStar (codes settings.github_token)
    → has_part (codes (sanitize_git_message settings msg)) (codes settings.github_token) ≡ false
unfolding sanitize_git_message
sanitize_git_message-redacts settings msg b h =
    let t = codes settings.github_token in
    let k : starts [] t ≡ false = is_blank-starts settings.github_token b in
    rw b (
      hidden-parts 0 (replace_text msg settings.github_token "***") t h k (
        has_part-replace_text msg settings.github_token "***" k
          (and_intro _ _ (stars-apart t k h) (stars-ends t h))))
