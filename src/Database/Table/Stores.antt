-- ===== src/Database/Table/Stores.antt =====
-- What the queries and the updates of one table keep of the state.
use akesis.Common.{
  Bool, true, false, List, [], ◌∷◌, ◌++◌, nat_eq, string_eq, if◌then◌else◌, any, select, update,
}
use akesis.Runtime.{World, Result}
use akesis.Runtime.Keeps.{Keeps}
use akesis.Database.Table.{Table, one_or_none, select_one, update_one, update_found, insert_row}

-- An invariant that says nothing of the rows of a table.
pub record Stores {Row : Type 0} (t : Table Row) (P : World → Type 0) : Type 0 where
  pub stored : (rows : List Row) (w : World) → P w → P (t.store rows w)

if-after :
    {A : Type 0} (P : World → Type 0) (b : Bool) (e r : Result A × World)
    → P e.1
    → P r.1
    → P (if b then e else r).1
if-after P true e r h k = h
if-after P false e r h k = k

module _ {Row : Type 0} (t : Table Row) {P : World → Type 0} where
  one_or_none-Keeps : {A : Type 0} (xs : List A) → Keeps P (one_or_none xs)
  unfolding one_or_none
  one_or_none-Keeps [] = record { after = λ w h. h }
  one_or_none-Keeps (x ∷ []) = record { after = λ w h. h }
  one_or_none-Keeps (x ∷ y ∷ xs) = record { after = λ w h. h }

  pub select_one-Keeps : (p : Row → Bool) → Keeps P (select_one t p)
  unfolding select_one
  select_one-Keeps p = record { after = λ w h. (one_or_none-Keeps (select p (t.rows w))).after w h }

  update_found-after :
      Stores t P
      → (xs : List Row) (p : Row → Bool) (f : Row → Row) (w : World) → P w
      → P (update_found t xs p f w).1
  unfolding update_found
  update_found-after s [] p f w h = h
  update_found-after s (x ∷ []) p f w h = s.stored (update p f (t.rows w)) w h
  update_found-after s (x ∷ y ∷ xs) p f w h = h

  pub update_one-Keeps : Stores t P → (p : Row → Bool) (f : Row → Row) → Keeps P (update_one t p f)
  unfolding update_one
  update_one-Keeps s p f = record {
    after = λ w h. update_found-after s (select p (t.rows w)) p f w h;
  }

  pub insert_row-Keeps : Stores t P → (p : Row → Bool) (r : Row) → Keeps P (insert_row t p r)
  unfolding insert_row
  insert_row-Keeps s p r = record {
    after = λ w h. if-after P (any p (t.rows w)) _ _ h (s.stored (t.rows w ++ r ∷ []) w h);
  }
