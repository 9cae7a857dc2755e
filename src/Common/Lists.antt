-- ===== src/Common/Lists.antt =====
-- Lists: membership and tests as Python's `in`, `any`, `all`, and rows of a table by a test.
use Prim.Native.Nat.{ℕ, zero, suc, ◌+◌}
use mathlib.Core.Path.{◌≡◌, refl, sym, ap, ◌∙◌}
use mathlib.Core.Bool.{Bool, true, false, ◌&&◌, ◌||◌}
use mathlib.Core.List.{List, [], ◌∷◌, ◌++◌, map}
use native.Mathlib.Omega.{arith}
use akesis.Common.Tests.{Eq, ◌==◌, if◌then◌else◌}

module _ {ℓ} {A : Type ℓ} where
  abbrev pub length : List A → ℕ
  length [] = 0
  length (x ∷ xs) = suc (length xs)

  abbrev pub is_empty : List A → Bool
  is_empty [] = true
  is_empty (x ∷ xs) = false

  abbrev pub any : (A → Bool) → List A → Bool
  any p [] = false
  any p (x ∷ xs) = p x || any p xs

  abbrev pub all : (A → Bool) → List A → Bool
  all p [] = true
  all p (x ∷ xs) = p x && all p xs

  -- the rows that pass a test
  abbrev pub select : (A → Bool) → List A → List A
  select p [] = []
  select p (x ∷ xs) = let rest = select p xs in if p x then x ∷ rest else rest

  -- every row that passes a test, rewritten
  abbrev pub update : (A → Bool) → (A → A) → List A → List A
  update p f [] = []
  update p f (x ∷ xs) = (if p x then f x else x) ∷ update p f xs

  pub length-append : (xs ys : List A) → length (xs ++ ys) ≡ length xs + length ys
  length-append [] ys = omega arith
  length-append (x ∷ xs) ys = omega (arith, length-append xs ys)

-- A predicate of every element.
abbrev pub All {ℓ κ} : {A : Type ℓ} → (A → Type κ) → List A → Type κ
All P [] = Unit
All P (x ∷ xs) = P x × All P xs

pub All-append {ℓ κ} :
    {A : Type ℓ} (P : A → Type κ) (xs ys : List A) → All P xs → All P ys → All P (xs ++ ys)
All-append P [] ys hx hy = hy
All-append P (x ∷ xs) ys hx hy = (hx.0, All-append P xs ys hx.1 hy)

pub All-imp {ℓ κ μ} :
    {A : Type ℓ} {P : A → Type κ} {Q : A → Type μ} (xs : List A)
    → ((x : A) → P x → Q x)
    → All P xs
    → All Q xs
All-imp [] f h = tt
All-imp (x ∷ xs) f h = (f x h.0, All-imp xs f h.1)

-- `x in xs`
module _ {ℓ} {A : Type ℓ} ⦃e : Eq A⦄ where
  abbrev pub contains : A → List A → Bool
  contains a [] = false
  contains a (x ∷ xs) = a == x || contains a xs

  -- `list(dict.fromkeys(xs))` after the names in `seen`
  abbrev pub dedupe_from : List A → List A → List A
  dedupe_from seen [] = []
  dedupe_from seen (x ∷ xs) = elim (contains x seen) [
    | true ↦ dedupe_from seen xs
    | false ↦ x ∷ dedupe_from (x ∷ seen) xs
  ]

  -- `list(dict.fromkeys(xs))`: the first occurrence of each, in order
  abbrev pub dedupe : List A → List A
  dedupe xs = dedupe_from [] xs

pub list_append_nil {ℓ} : {A : Type ℓ} (xs : List A) → xs ++ [] ≡ xs
list_append_nil [] = refl
list_append_nil (x ∷ xs) = ap (λ t. x ∷ t) (list_append_nil xs)

pub list_append_assoc {ℓ} : {A : Type ℓ} (xs ys zs : List A) → (xs ++ ys) ++ zs ≡ xs ++ (ys ++ zs)
list_append_assoc [] ys zs = refl
list_append_assoc (x ∷ xs) ys zs = ap (λ t. x ∷ t) (list_append_assoc xs ys zs)

pub map-snoc {ℓ κ} :
    {A : Type ℓ} {B : Type κ} (f : A → B) (xs : List A) (x : A)
    → map f (xs ++ x ∷ []) ≡ map f xs ++ f x ∷ []
map-snoc f [] x = refl
map-snoc f (y ∷ xs) x = ap (λ t. f y ∷ t) (map-snoc f xs x)

pub length-map {ℓ κ} :
    {A : Type ℓ} {B : Type κ} (f : A → B) (xs : List A) → length (map f xs) ≡ length xs
length-map f [] = refl
length-map f (x ∷ xs) = omega (arith, length-map f xs)

-- `xs[:n]`, and `limit` of a query
abbrev pub take {ℓ} : {A : Type ℓ} → ℕ → List A → List A
take zero xs = []
take (suc n) [] = []
take (suc n) (x ∷ xs) = x ∷ take n xs

-- `xs[n:]`, and `offset` of a query
abbrev pub skip {ℓ} : {A : Type ℓ} → ℕ → List A → List A
skip zero xs = xs
skip (suc n) [] = []
skip (suc n) (x ∷ xs) = skip n xs

pub take-nil {ℓ} : {A : Type ℓ} (n : ℕ) → take {A = A} n [] ≡ []
take-nil zero = refl
take-nil (suc n) = refl

pub skip-nil {ℓ} : {A : Type ℓ} (n : ℕ) → skip {A = A} n [] ≡ []
skip-nil zero = refl
skip-nil (suc n) = refl

pub take-all {ℓ} : {A : Type ℓ} (xs : List A) → take (length xs) xs ≡ xs
take-all [] = refl
take-all (x ∷ xs) = ap (λ t. x ∷ t) (take-all xs)

pub take-more {ℓ} :
    {A : Type ℓ} (l m : ℕ) (xs : List A) → take l xs ++ take m (skip l xs) ≡ take (l + m) xs
take-more zero m xs = let e : 0 + m ≡ m = omega arith in rw e refl
take-more (suc l) m [] = take-nil m ∙ sym (take-nil (suc l + m))
take-more (suc l) m (x ∷ xs) =
    let e : suc l + m ≡ suc (l + m) = omega arith in rw e (ap (λ t. x ∷ t) (take-more l m xs))

pub skip-more {ℓ} : {A : Type ℓ} (o l : ℕ) (xs : List A) → skip l (skip o xs) ≡ skip (o + l) xs
skip-more zero l xs = let e : 0 + l ≡ l = omega arith in rw e refl
skip-more (suc o) l [] = skip-nil l ∙ sym (skip-nil (suc o + l))
skip-more (suc o) l (x ∷ xs) =
    let e : suc o + l ≡ suc (o + l) = omega arith in rw e (skip-more o l xs)

pub map-append {ℓ κ} :
    {A : Type ℓ} {B : Type κ} (f : A → B) (xs ys : List A) → map f (xs ++ ys) ≡ map f xs ++ map f ys
map-append f [] ys = refl
map-append f (x ∷ xs) ys = ap (λ t. f x ∷ t) (map-append f xs ys)
