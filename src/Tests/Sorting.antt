-- ===== src/Tests/Sorting.antt =====
-- A database that sorts by insertion, and the pages of two pipelines in it.
use akesis.Common.{
  String, ◌≡◌, refl, inl, inr, Bool, true, false, not, ◌&&◌, ◌||◌, List, [], ◌∷◌, arith, nat_eq,
  string_eq, if◌then◌else◌, ltb, Bool-cases, codes, length,
}
use akesis.Domain.{PipelineRecord}
use akesis.Runtime.{World}
use akesis.Samples.{pipeline, world}
use akesis.Database.Listing.{Column, Direction, QueryOrder}
use akesis.Database.Listing.Paging.{
  count_of, in_order, IsOrdered, Sorts, IsPaged, list_recent_pipelines-IsPaged,
}

abbrev shorter : String → String → Bool
shorter a b = ltb (length (codes a)) (length (codes b))

module _ (keys : List (Column × Direction)) where
  abbrev insert_by : PipelineRecord → List PipelineRecord → List PipelineRecord
  insert_by r [] = r ∷ []
  insert_by r (s ∷ rows) =
      let rest = insert_by r rows in if in_order shorter keys r s then r ∷ s ∷ rows else s ∷ rest

  abbrev sorted : List PipelineRecord → List PipelineRecord
  sorted [] = []
  sorted (r ∷ rows) = insert_by r (sorted rows)

abbrev sorting : QueryOrder
sorting = record { order_by = sorted }

swap :
    (a b c d : Bool)
    → (a || (not b && c)) ≡ false
    → (c ≡ false → d ≡ true)
    → (b || (not a && d)) ≡ true
swap a true c d h k = refl
swap true false c d h k = ground arith
swap false false c d h k = k h

in_order-total :
    (keys : List (Column × Direction)) (r s : PipelineRecord)
    → in_order shorter keys r s ≡ false
    → in_order shorter keys s r ≡ true
in_order-total [] r s h = ground arith
in_order-total (k ∷ ks) r s h = swap _ _ _ _ h (in_order-total ks r s)

module _ (keys : List (Column × Direction)) where
  insert_after :
      (s r : PipelineRecord) (rows : List PipelineRecord)
      → in_order shorter keys s r ≡ true
      → IsOrdered shorter keys (s ∷ rows)
      → IsOrdered shorter keys (s ∷ insert_by keys r rows)
  insert_after s r [] h k = (h, tt)
  insert_after s r (u ∷ rows) h k = elim (Bool-cases (in_order shorter keys r u)) [
    | inl e ↦ rw e (h, (e, k.1))
    | inr e ↦ rw e (k.0, insert_after u r rows (in_order-total keys r u e) k.1)
  ]

  insert_by-IsOrdered :
      (r : PipelineRecord) (rows : List PipelineRecord)
      → IsOrdered shorter keys rows
      → IsOrdered shorter keys (insert_by keys r rows)
  insert_by-IsOrdered r [] h = tt
  insert_by-IsOrdered r (s ∷ rows) h = elim (Bool-cases (in_order shorter keys r s)) [
    | inl e ↦ rw e (e, h)
    | inr e ↦ rw e (insert_after s r rows (in_order-total keys r s e) h)
  ]

  sorted-IsOrdered : (rows : List PipelineRecord) → IsOrdered shorter keys (sorted keys rows)
  sorted-IsOrdered [] = tt
  sorted-IsOrdered (r ∷ rows) = insert_by-IsOrdered r (sorted keys rows) (sorted-IsOrdered rows)

  count_of-insert_by :
      (p : PipelineRecord → Bool) (r : PipelineRecord) (rows : List PipelineRecord)
      → count_of p (insert_by keys r rows) ≡ count_of p (r ∷ rows)
  count_of-insert_by p r [] = refl
  count_of-insert_by p r (s ∷ rows) = ground (arith, count_of-insert_by p r rows)

  count_of-sorted :
      (rows : List PipelineRecord) (p : PipelineRecord → Bool)
      → count_of p (sorted keys rows) ≡ count_of p rows
  count_of-sorted [] p = refl
  count_of-sorted (r ∷ rows) p =
      ground (arith, count_of-insert_by p r (sorted keys rows), count_of-sorted rows p)

sorting-Sorts : Sorts shorter sorting
sorting-Sorts = record { in_place = sorted-IsOrdered; same_rows = count_of-sorted }

abbrev two_pipelines : World
two_pipelines = record world {
  pipelines =
      pipeline
      ∷ record pipeline { pipeline_id = "pipe_inc_2"; incident_id = "inc_2"; created_at = 7 }
      ∷ [];
}

list_recent_pipelines-IsPaged_example : IsPaged shorter sorting two_pipelines
list_recent_pipelines-IsPaged_example =
    list_recent_pipelines-IsPaged shorter sorting sorting-Sorts two_pipelines
