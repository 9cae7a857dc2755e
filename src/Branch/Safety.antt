-- ===== src/Branch/Safety.antt =====
-- The branch that class GitMutationService of src/packages/shared/mutation_service.py makes up,
-- before its own test of branch names.
use akesis.Common.{
  ℕ, String, ◌≡◌, refl, ◌∙◌, ◌↔◌, Bool, true, false, ◌||◌, List, [], ◌∷◌, ◌++◌, arith, ◌==◌, nat_eq,
  string_eq, if◌then◌else◌, codes, starts, has_part, last_is, All, is_blank, codes-append,
  All-append, All-imp,
}
use text.Mathlib.TextLemmas.{append-nil}
use Prim.Native.Char.{Char, code}
use akesis.Runtime.{World, ok}
use akesis.Branch.{
  generate_branch_name, validate_branch_name, clean, is_id_char, is_branch_char, matches_rest,
  matches_safe, is_protected,
}
use Prim.Native.Char.{Char, code}

-- an id's character or a slash
abbrev is_name_char : ℕ → Bool
is_name_char c = is_id_char c || c == b'/'

abbrev Names : List ℕ → Type 0
Names cs = All (λ c. is_name_char c ≡ true) cs

abbrev Ids : List ℕ → Type 0
Ids cs = All (λ c. is_id_char c ≡ true) cs

keep-one :
    (b : Bool) (c : Char) (s : String)
    → is_id_char (code c) ≡ b
    → Ids (codes s)
    → Ids (codes (if b then String.◌∷◌ c s else s))
keep-one true c s e h = (e, h)
keep-one false c s e h = h

keep-Ids : (s : String) → Ids (codes (clean s))
keep-Ids String.[] = tt
keep-Ids (String.◌∷◌ c s) = keep-one (is_id_char (code c)) c (clean s) refl (keep-Ids s)

id-name : (c : ℕ) → is_id_char c ≡ true → is_name_char c ≡ true
id-name c h = ground arith

name-branch : (c : ℕ) → is_name_char c ≡ true → is_branch_char c ≡ true
name-branch c h = ground arith

name-no_dot : (c : ℕ) → is_name_char c ≡ true → (c == b'.') ≡ false
name-no_dot c h = ground arith

id-no_slash : (c : ℕ) → is_id_char c ≡ true → (c == b'/') ≡ false
id-no_slash c h = ground arith

matches_rest-Names : (cs : List ℕ) → Names cs → matches_rest cs ≡ true
matches_rest-Names [] h = refl
matches_rest-Names (c ∷ []) h = ground (arith, name-branch c)
matches_rest-Names (c ∷ d ∷ cs) h = ground (arith, name-branch c, matches_rest-Names (d ∷ cs))

has_part-Names : (cs : List ℕ) → Names cs → has_part cs (codes "..") ≡ false
has_part-Names [] h = refl
has_part-Names (c ∷ cs) h = ground (arith, name-no_dot c, has_part-Names cs)

last_is-append :
    (d : ℕ) (cs : List ℕ) (e : ℕ) (es : List ℕ) → last_is d (cs ++ e ∷ es) ≡ last_is d (e ∷ es)
last_is-append d [] e es = refl
last_is-append d (c ∷ []) e es = refl
last_is-append d (c ∷ c' ∷ cs) e es = last_is-append d (c' ∷ cs) e es

last_is-Ids : (cs : List ℕ) → Ids cs → last_is b'/' cs ≡ false
last_is-Ids [] h = refl
last_is-Ids (c ∷ []) h = id-no_slash c h.0
last_is-Ids (c ∷ d ∷ cs) h = last_is-Ids (d ∷ cs) h.1

Ids-Names : (cs : List ℕ) → Ids cs → Names cs
Ids-Names cs h = All-imp cs id-name h

name_codes :
    (incident_id proposal_id : String)
    → codes (generate_branch_name incident_id proposal_id)
      ≡ codes "akesis/fix/" ++ (codes (clean incident_id) ++ (b'/' ∷ codes (clean proposal_id)))
unfolding generate_branch_name
name_codes i p =
    rw (append-nil (clean p), codes-append "akesis/fix/", codes-append (clean i), codes-append "/")
      refl

last_is-blank : (s : String) → Ids (codes s) → last_is b'/' (b'/' ∷ codes s) ≡ is_blank s
last_is-blank String.[] h = refl
last_is-blank (String.◌∷◌ c s) h = last_is-Ids (codes (String.◌∷◌ c s)) h

name-Names : (i p : String) → Names (codes (clean i) ++ (b'/' ∷ codes (clean p)))
name-Names i p =
    All-append _ (codes (clean i)) (b'/' ∷ codes (clean p)) (Ids-Names _ (keep-Ids i))
      (refl, Ids-Names _ (keep-Ids p))

name_matches : (i p : String) → matches_safe (codes (generate_branch_name i p)) ≡ true
name_matches i p = rw (name_codes i p) (
    matches_rest-Names (b'/' ∷ (codes (clean i) ++ (b'/' ∷ codes (clean p))))
      (refl, name-Names i p))

name_protected : (i p : String) → is_protected (codes (generate_branch_name i p)) ≡ false
name_protected i p = rw (name_codes i p) refl

name_no_dots : (i p : String) → has_part (codes (generate_branch_name i p)) (codes "..") ≡ false
name_no_dots i p = rw (name_codes i p) (
    has_part-Names (codes "akesis/fix/" ++ (codes (clean i) ++ (b'/' ∷ codes (clean p)))) (
      All-append (λ c. is_name_char c ≡ true) (codes "akesis/fix/") _
        (refl, (refl, (refl, (refl, (refl, (refl, (refl, (refl, (refl, (refl, (refl, tt)))))))))))
        (name-Names i p)))

name_end : (i p : String) → last_is b'/' (codes (generate_branch_name i p)) ≡ is_blank (clean p)
name_end i p = rw (name_codes i p) (
    last_is-append b'/' (codes "akesis/fix/" ++ codes (clean i)) b'/' (codes (clean p))
    ∙ last_is-blank (clean p) (keep-Ids p))

name_start : (i p : String) → starts (codes (generate_branch_name i p)) (codes "/") ≡ false
name_start i p = rw (name_codes i p) refl

-- A made-up branch name passes the test of branch names exactly when the proposal's id has a
-- letter from a to z or A to Z, a digit, an underscore or a dash.
pub generate-validate :
    (incident_id proposal_id : String) (w : World)
    → ((validate_branch_name (generate_branch_name incident_id proposal_id) w).0 ≡ ok tt)
      ↔ (is_blank (clean proposal_id) ≡ false)
unfolding validate_branch_name
generate-validate i p w =
    rw (name_matches i p, name_no_dots i p, name_start i p, name_end i p, name_protected i p)
      (ground arith)
