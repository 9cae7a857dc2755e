-- ===== src/Database/Table.antt =====
-- SQLAlchemy over one table: what `select`, `update ... returning`, `session.add` and
-- `scalar_one_or_none` do, and the laws that the repositories share.
pub mod Stores
pub mod Unique
use akesis.Common.{
  ℕ, zero, suc, ◌+◌, ◌-◌, ◌*◌, ◌/◌, ◌%◌, ◌≤◌, ◌<◌, min, max, String, ◌≡◌, refl, sym, ap, ◌∙◌, ◌≢◌,
  ◌↔◌, ◌⊎◌, inl, inr, Bool, true, false, not, ◌&&◌, ◌||◌, Option, none, some, List, [], ◌∷◌, ◌++◌,
  map, arith, eq_iff, eq_refl, Eq, ◌==◌, nat_eq, string_eq, if◌then◌else◌, ltb, leb, Bool-cases,
  Option-cases, and-false, codes, keep, lower, starts, has_part, last_is, same_codes, is_some,
  or_else, length, is_empty, any, all, select, update, length-append, All, contains, dedupe, concat,
  join, prefix, is_blank, text_or, decimal,
}
use akesis.Runtime.{World, M, ok, err, ErrorKind, pure, raise}

pub record Table (Row : Type 0) : Type 0 where
  pub rows : World → List Row
  pub store : List Row → World → World

-- `res.scalar_one_or_none()`
unfoldable pub one_or_none : {A : Type 0} → List A → M (Option A)
one_or_none [] = pure none
one_or_none (x ∷ []) = pure (some x)
one_or_none (x ∷ y ∷ xs) =
    raise ErrorKind.multiple_results "Multiple rows were found when one or none was required"

module _ {Row : Type 0} (t : Table Row) where
  -- `select(Model).where(p)`, read by `scalar_one_or_none`
  unfoldable pub select_one : (Row → Bool) → M (Option Row)
  unfolding one_or_none
  select_one p w = one_or_none (select p (t.rows w)) w

  unfoldable update_found : List Row → (Row → Bool) → (Row → Row) → M (Option Row)
  update_found [] p f w = (ok none, w)
  update_found (x ∷ []) p f w = (ok (some (f x)), t.store (update p f (t.rows w)) w)
  update_found (x ∷ y ∷ xs) p f w =
      raise ErrorKind.multiple_results "Multiple rows were found when one or none was required" w

  -- `update(Model).where(p).values(f).returning(Model)`, read by `scalar_one_or_none`, and
  -- committed where a row came back; a raise rolls back
  unfoldable pub update_one : (Row → Bool) → (Row → Row) → M (Option Row)
  unfolding update_found
  update_one p f w = update_found (select p (t.rows w)) p f w

  -- `session.add(row); session.commit()`, where `clash` is the table's key and unique columns
  unfoldable pub insert_row : (Row → Bool) → Row → M Row
  insert_row clash row w =
      if any clash (t.rows w)
      then (err (record { kind = ErrorKind.integrity; message = "duplicate key value" }), w)
      else (ok row, t.store (t.rows w ++ row ∷ []) w)

module _ {Row : Type 0} where
  pub select-append :
      (p : Row → Bool) (xs ys : List Row) → select p (xs ++ ys) ≡ select p xs ++ select p ys
  select-append p [] ys = refl
  select-append p (x ∷ xs) ys = ground (arith, select-append p xs ys)

  -- A test on columns that an update leaves alone may be made before or after it.
  pub select-update :
      (q p : Row → Bool) (f : Row → Row) (xs : List Row)
      → ((x : Row) → q (f x) ≡ q x)
      → select q (update p f xs) ≡ update p f (select q xs)
  select-update q p f [] h = refl
  select-update q p f (x ∷ xs) h = ground (arith, h x, select-update q p f xs h)

  pub select-and :
      (p q : Row → Bool) (xs : List Row) → select (λ x. p x && q x) xs ≡ select q (select p xs)
  select-and p q [] = refl
  select-and p q (x ∷ xs) = ground (arith, select-and p q xs)

  pub select_none_of_any : (p : Row → Bool) (xs : List Row) → any p xs ≡ false → select p xs ≡ []
  select_none_of_any p [] h = refl
  select_none_of_any p (x ∷ xs) h = ground (arith, select_none_of_any p xs)

  pub length-update :
      (p : Row → Bool) (f : Row → Row) (xs : List Row) → length (update p f xs) ≡ length xs
  length-update p f [] = refl
  length-update p f (x ∷ xs) = ap suc (length-update p f xs)

  -- A row with a key that a unique column excludes is not there.
  pub select_none_of_any_or :
      (p q : Row → Bool) (xs : List Row) → any (λ x. p x || q x) xs ≡ false → select p xs ≡ []
  select_none_of_any_or p q [] h = refl
  select_none_of_any_or p q (x ∷ xs) h = ground (arith, select_none_of_any_or p q xs)

  pub select_none_of_any_or_right :
      (p q : Row → Bool) (xs : List Row) → any (λ x. p x || q x) xs ≡ false → select q xs ≡ []
  select_none_of_any_or_right p q [] h = refl
  select_none_of_any_or_right p q (x ∷ xs) h = ground (arith, select_none_of_any_or_right p q xs)
