-- ===== src/Checkout/Sanitize.antt =====
-- `_sanitize_git_message`: the token and the user of a URL are hidden in a message of git.
-- the characters of `[^@\s]+` that an `@` follows
use akesis.Common.{
  ℕ, zero, suc, ◌+◌, ◌-◌, String, Option, none, some, List, [], ◌∷◌, ◌==◌, nat_eq, string_eq,
  if◌then◌else◌, codes, starts, concat, is_blank, is_space, replace_text, skip,
}
use Prim.Native.Char.{Char}
use akesis.Config.{Settings}

abbrev pub user_info : List ℕ → Option ℕ
user_info [] = none
user_info (c ∷ s) =
    let rest = user_info s in
    if c == b'@'
    then some 0
    else if is_space c
    then none
    else elim rest [ none ↦ none | some n ↦ some (suc n) ]

-- what of a text `https://[^@\s]+` takes, where an `@` follows it
unfoldable pub credentials : List ℕ → Option ℕ
credentials s =
    if starts s (codes "https://")
    then elim (user_info (skip 8 s)) [
      | none ↦ none
      | some zero ↦ none
      | some (suc n) ↦ some (suc n + 8)
    ]
    else none

abbrev pub left_over : Option ℕ → ℕ
left_over none = 0
left_over (some n) = n - 1

abbrev pub hide_or_copy : Option ℕ → Char → String → String
hide_or_copy none c rest = String.◌∷◌ c rest
hide_or_copy (some n) c rest = concat ("https://***" ∷ rest ∷ [])

-- `re.sub(r"https://[^@\s]+@", "https://***@", s)`, after `passed` characters of a match; the `@`
-- begins no other match, and is copied
abbrev pub hide_credentials : ℕ → String → String
hide_credentials passed String.[] = String.[]
hide_credentials zero (String.◌∷◌ c s) =
    let match = credentials (codes (String.◌∷◌ c s)) in
    hide_or_copy match c (hide_credentials (left_over match) s)
hide_credentials (suc passed) (String.◌∷◌ c s) = hide_credentials passed s

unfoldable pub sanitize_git_message : Settings → String → String
sanitize_git_message settings msg =
    let token = settings.github_token in
    hide_credentials 0 (if is_blank token then msg else replace_text msg token "***")
