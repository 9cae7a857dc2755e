-- ===== src/Database/Table/Unique.antt =====
-- Updates of the one row that a test selects.
use akesis.Common.{
  ◌≡◌, refl, ◌⊎◌, inl, inr, Bool, true, false, none, some, List, [], ◌∷◌, arith, nat_eq, string_eq,
  if◌then◌else◌, select, update,
}
use akesis.Runtime.{World, ok, err, Error}
use akesis.Database.Table.{Table, update_one, update_found, select-update}

module _ {Row : Type 0} where
  selected-cons :
      (b : Bool) (p : Row → Bool) (y : Row) (ys : List Row) (x : Row) (rest : List Row)
      → p y ≡ b
      → ((if b then y ∷ select p ys else select p ys) ≡ x ∷ rest)
      → ((select p ys ≡ x ∷ rest) → p x ≡ true)
      → p x ≡ true
  selected-cons true p y ys x rest h e k = ground arith
  selected-cons false p y ys x rest h e k = k e

  pub selected :
      (p : Row → Bool) (xs : List Row) (x : Row) (rest : List Row)
      → select p xs ≡ x ∷ rest
      → p x ≡ true
  selected p [] x rest e = ground arith
  selected p (y ∷ ys) x rest e = selected-cons (p y) p y ys x rest refl e (selected p ys x rest)

  -- An update that leaves the tested columns alone leaves the one row, changed.
  pub select-update_unique :
      (p : Row → Bool) (f : Row → Row) (xs : List Row) (x : Row)
      → ((y : Row) → p (f y) ≡ p y)
      → select p xs ≡ x ∷ []
      → select p (update p f xs) ≡ f x ∷ []
  select-update_unique p f xs x h e = rw (select-update p p f xs h, e, selected p xs x [] e) refl

  pub update_one_unique :
      (t : Table Row) (p : Row → Bool) (f : Row → Row) (w : World) (x : Row)
      → select p (t.rows w) ≡ x ∷ []
      → update_one t p f w ≡ (ok (some (f x)), t.store (update p f (t.rows w)) w)
  unfolding update_one update_found
  update_one_unique t p f w x e = rw e refl

module _ {Row : Type 0} (t : Table Row) (p : Row → Bool) (f : Row → Row) where
  found-cases :
      (xs : List Row) (w : World)
      → (update_found t xs p f w ≡ (ok none, w))
        ⊎ (((x : Row) × (update_found t xs p f w
                ≡ (ok (some (f x)), t.store (update p f (t.rows w)) w)))
            ⊎ ((e : Error) × (update_found t xs p f w ≡ (err e, w))))
  unfolding update_found
  found-cases [] w = inl refl
  found-cases (x ∷ []) w = inr (inl (x, refl))
  found-cases (x ∷ y ∷ xs) w = inr (inr (_, refl))

  -- An update finds no row, changes one, or raises and changes nothing.
  pub update_one-cases :
      (w : World)
      → (update_one t p f w ≡ (ok none, w))
        ⊎ (((x : Row) × (update_one t p f w ≡ (ok (some (f x)), t.store (update p f (t.rows w)) w)))
            ⊎ ((e : Error) × (update_one t p f w ≡ (err e, w))))
  unfolding update_one
  update_one-cases w = found-cases (select p (t.rows w)) w
