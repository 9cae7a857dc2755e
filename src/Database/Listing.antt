-- ===== src/Database/Listing.antt =====
-- `list_recent_pipelines` of class PipelineRepository of src/packages/database/repositories.py. How the
-- database sorts rows is a parameter; its collation is a parameter of the theorems.
pub mod Paging
use akesis.Common.{
  ℕ, zero, suc, ◌+◌, ◌-◌, ◌*◌, ◌/◌, ◌%◌, ◌≤◌, ◌<◌, min, max, String, ◌≡◌, refl, sym, ap, ◌∙◌, ◌≢◌,
  ◌↔◌, ◌⊎◌, inl, inr, Bool, true, false, not, ◌&&◌, ◌||◌, Option, none, some, List, [], ◌∷◌, ◌++◌,
  map, arith, eq_iff, eq_refl, Eq, ◌==◌, nat_eq, string_eq, if◌then◌else◌, ltb, leb, Bool-cases,
  Option-cases, and-false, codes, keep, lower, starts, has_part, last_is, same_codes, is_some,
  or_else, length, is_empty, any, all, select, update, length-append, All, contains, dedupe, concat,
  join, prefix, is_blank, text_or, decimal, within, is_space, is_break, is_digit, onto, lines_from,
  split_lines, strip_left, strip_right, strip, drop, starts_with, ends, after_first, until,
  replace_char, read_digits, skip_space, ◌>>=◌, list_append_nil, list_append_assoc, map-snoc,
  length-map, take, skip, take-all, take-more, skip-more, map-append, All-append, codes-append,
  read_digits-decimal, starts_digitless, StartsDigit, decimal-StartsDigit, IsLine, split_lines-join,
  drop-append,
}
use akesis.Domain.{PipelineRecord, PipelineSummary}
use akesis.Runtime.{M, World, ok}

abbrev pub to_summary : PipelineRecord → PipelineSummary
to_summary r = record {
  pipeline_id = r.pipeline_id;
  incident_id = r.incident_id;
  repository_owner = r.repository_owner;
  repository_name = r.repository_name;
  run_id = r.run_id;
  commit_sha = r.commit_sha;
  status = r.status;
  diagnosis_id = r.diagnosis_id;
  proposal_id = r.proposal_id;
  approval_id = r.approval_id;
  mutation_id = r.mutation_id;
  pr_number = r.pr_number;
  pr_url = r.pr_url;
  failure_reason = r.failure_reason;
  created_at = r.created_at;
  updated_at = r.updated_at;
}

pub data Column : Type 0 where
  created_at_column pipeline_id_column : Column

pub data Direction : Type 0 where
  ascending descending : Direction

-- What the database does with the rows of a query that has an `ORDER BY`, whose terms are columns of
-- the table `pipelines`.
pub record QueryOrder : Type 0 where
  pub order_by : List (Column × Direction) → List PipelineRecord → List PipelineRecord

-- `order_by(created_at.desc(), pipeline_id.desc())`
abbrev pub latest_first : List (Column × Direction)
latest_first =
    (Column.created_at_column, Direction.descending)
    ∷ (Column.pipeline_id_column, Direction.descending)
    ∷ []

module _ (database : QueryOrder) where
  abbrev pub ordered_rows : List PipelineRecord → List PipelineRecord
  ordered_rows rows = database.order_by latest_first rows

  abbrev pub recent_page : ℕ → ℕ → World → List PipelineSummary
  recent_page limit offset w = map to_summary (take limit (skip offset (ordered_rows w.pipelines)))

  unfoldable pub list_recent_pipelines : ℕ → ℕ → M (List PipelineSummary)
  list_recent_pipelines limit offset w = (ok (recent_page limit offset w), w)
