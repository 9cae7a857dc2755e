-- ===== src/Database/Listing/Paging.antt =====
-- The pages of `list_recent_pipelines` of src/packages/database/repositories.py.
use akesis.Common.{
  ℕ, zero, suc, ◌+◌, ◌≤◌, String, ◌≡◌, sym, ap, ◌∙◌, Bool, true, not, ◌&&◌, ◌||◌, List, [], ◌∷◌,
  ◌++◌, map, arith, nat_eq, string_eq, ltb, length, select, take, skip, take-all, take-more,
  skip-more, map-append, All, All-imp,
}
use akesis.Database.Listing.{
  Column, created_at_column, pipeline_id_column, Direction, ascending, descending, QueryOrder,
  latest_first, ordered_rows, recent_page, list_recent_pipelines, to_summary,
}
use akesis.Domain.{PipelineRecord, PipelineSummary}
use akesis.Runtime.{World, ok}

-- The rows that pass a test.
abbrev pub count_of : (PipelineRecord → Bool) → List PipelineRecord → ℕ
count_of p rows = length (select p rows)

module _ (before : String → String → Bool) where
  abbrev less : Column → PipelineRecord → PipelineRecord → Bool
  less created_at_column r s = ltb r.created_at s.created_at
  less pipeline_id_column r s = before r.pipeline_id s.pipeline_id

  abbrev precedes : Column × Direction → PipelineRecord → PipelineRecord → Bool
  precedes (column, ascending) r s = less column r s
  precedes (column, descending) r s = less column s r

  -- The first term of an `ORDER BY` that tells the rows apart puts the first row first; none may.
  abbrev pub in_order : List (Column × Direction) → PipelineRecord → PipelineRecord → Bool
  in_order [] r s = true
  in_order (k ∷ ks) r s = precedes k r s || (not (precedes k s r) && in_order ks r s)

  abbrev pub IsOrdered : List (Column × Direction) → List PipelineRecord → Type 0
  IsOrdered keys [] = Unit
  IsOrdered keys (r ∷ []) = Unit
  IsOrdered keys (r ∷ s ∷ rows) = (in_order keys r s ≡ true) × IsOrdered keys (s ∷ rows)

  -- The database sorts by any terms: it keeps the rows, and puts each before the next as the terms
  -- say, under a collation of texts.
  pub record Sorts (database : QueryOrder) : Type 0 where
    pub in_place :
        (keys : List (Column × Direction)) (rows : List PipelineRecord)
        → IsOrdered keys (database.order_by keys rows)
    pub same_rows :
        (keys : List (Column × Direction)) (rows : List PipelineRecord) (p : PipelineRecord → Bool)
        → count_of p (database.order_by keys rows) ≡ count_of p rows

  -- Each row is as late as all that follow it.
  abbrev IsDescending : List PipelineRecord → Type 0
  IsDescending [] = Unit
  IsDescending (r ∷ rows) = All (λ s. s.created_at ≤ r.created_at) rows × IsDescending rows

  latest-head :
      (r s : PipelineRecord) → in_order latest_first r s ≡ true → s.created_at ≤ r.created_at
  latest-head r s h = ground arith

  latest-IsDescending :
      (rows : List PipelineRecord) → IsOrdered latest_first rows → IsDescending rows
  latest-IsDescending [] h = tt
  latest-IsDescending (r ∷ []) h = (tt, tt)
  latest-IsDescending (r ∷ s ∷ rows) h =
      let later = latest-IsDescending (s ∷ rows) h.1 in
      let first = latest-head r s h.0 in
      ((first, All-imp rows (λ t k. omega (arith, k, first)) later.0), later)

  skip-IsDescending :
      (n : ℕ) (rows : List PipelineRecord) → IsDescending rows → IsDescending (skip n rows)
  skip-IsDescending zero rows h = h
  skip-IsDescending (suc n) [] h = tt
  skip-IsDescending (suc n) (r ∷ rows) h = skip-IsDescending n rows h.1

  take-All :
      (P : PipelineRecord → Type 0) (n : ℕ) (rows : List PipelineRecord)
      → All P rows
      → All P (take n rows)
  take-All P zero rows h = tt
  take-All P (suc n) [] h = tt
  take-All P (suc n) (r ∷ rows) h = (h.0, take-All P n rows h.1)

  skip-All :
      (P : PipelineRecord → Type 0) (n : ℕ) (rows : List PipelineRecord)
      → All P rows
      → All P (skip n rows)
  skip-All P zero rows h = h
  skip-All P (suc n) [] h = tt
  skip-All P (suc n) (r ∷ rows) h = skip-All P n rows h.1

  summaries-All :
      (P : PipelineSummary → Type 0) (rows : List PipelineRecord)
      → All (λ r. P (to_summary r)) rows
      → All P (map to_summary rows)
  summaries-All P [] h = tt
  summaries-All P (r ∷ rows) h = (h.0, summaries-All P rows h.1)

  -- No pipeline of the first list is older than one of the second.
  abbrev pub IsLater : List PipelineSummary → List PipelineSummary → Type 0
  IsLater page next = All (λ a. All (λ b. b.created_at ≤ a.created_at) next) page

  take-IsLater :
      (n m : ℕ) (rows : List PipelineRecord)
      → IsDescending rows
      → IsLater (map to_summary (take n rows)) (map to_summary (take m (skip n rows)))
  take-IsLater zero m rows h = tt
  take-IsLater (suc n) m [] h = tt
  take-IsLater (suc n) m (r ∷ rows) h = (
    summaries-All (λ b. b.created_at ≤ r.created_at) (take m (skip n rows))
        (take-All _ m (skip n rows) (skip-All (λ s. s.created_at ≤ r.created_at) n rows h.0)),
    take-IsLater n m rows h.1,
  )

  module _ (database : QueryOrder) where
    -- What the pages of a state show.
    pub record IsPaged (w : World) : Type 0 where
      pub rows : List PipelineRecord
      pub same : (p : PipelineRecord → Bool) → count_of p rows ≡ count_of p w.pipelines
      pub whole : list_recent_pipelines database (length rows) 0 w ≡ (ok (map to_summary rows), w)
      pub later :
          (limit more offset : ℕ)
          → IsLater
              (recent_page database limit offset w)
              (recent_page database more (offset + limit) w)
      pub pages :
          (limit more offset : ℕ)
          → recent_page database limit offset w ++ recent_page database more (offset + limit) w
            ≡ recent_page database (limit + more) offset w

    -- Where the database sorts by any terms of an `ORDER BY`, under some collation: the list of all
    -- pipelines has exactly the rows of the table, no pipeline of a page is older than one of the
    -- page after it, and the two are together one larger page, so that none is shown twice and none
    -- is left out.
    pub list_recent_pipelines-IsPaged : Sorts database → (w : World) → IsPaged w
    unfolding list_recent_pipelines
    list_recent_pipelines-IsPaged sorts w =
        let rows = ordered_rows database w.pipelines in
        let descending = latest-IsDescending rows (sorts.in_place latest_first w.pipelines) in
        record {
          rows = rows;
          same = sorts.same_rows latest_first w.pipelines;
          whole = ap (λ shown. (ok (map to_summary shown), w)) (take-all rows);
          later = λ limit more offset. rw (sym (skip-more offset limit rows)) (
              take-IsLater limit more (skip offset rows)
                (skip-IsDescending offset rows descending));
          pages = λ limit more offset.
              sym (
                map-append to_summary (take limit (skip offset rows))
                  (take more (skip (offset + limit) rows)))
              ∙ ap (map to_summary) (
                  ap (λ t. take limit (skip offset rows) ++ take more t)
                    (sym (skip-more offset limit rows))
                  ∙ take-more limit more (skip offset rows));
        }
