-- ===== src/Database/Mutations.antt =====
-- class MutationRepository of src/packages/database/repositories.py.
use akesis.Common.{ℕ, String, Bool, ◌&&◌, Option, none, some, ◌==◌, nat_eq, string_eq}
use akesis.Domain.{Datetime, MutationRecord, MutationStatus, ValidationStatus}
use akesis.Runtime.{M, ◌>>=◌, now}
use akesis.Database.Table.{Table, select_one, update_one, insert_row}

abbrev pub mutations : Table MutationRecord
mutations = record { rows = λ w. w.mutations; store = λ rows w. record w { mutations = rows } }

abbrev pub has_id : String → MutationRecord → Bool
has_id mutation_id r = r.mutation_id == mutation_id

unfoldable pub create_mutation : MutationRecord → M MutationRecord
unfolding insert_row
create_mutation r = insert_row mutations (has_id r.mutation_id) r

unfoldable pub get_mutation : String → M (Option MutationRecord)
unfolding select_one
get_mutation mutation_id = select_one mutations (has_id mutation_id)

abbrev pub is_for : String → String → MutationRecord → Bool
is_for proposal_id commit_sha r = r.proposal_id == proposal_id && r.base_commit_sha == commit_sha

unfoldable pub get_by_proposal_and_commit : String → String → M (Option MutationRecord)
unfolding select_one
get_by_proposal_and_commit proposal_id commit_sha =
    select_one mutations (is_for proposal_id commit_sha)

-- the optional columns of `update_status`; `none` leaves a column alone
pub record Changes : Type 0 where
  pub resulting_commit_sha : Option String
  pub validation_status : Option ValidationStatus
  pub pr_number : Option ℕ
  pub pr_url : Option String
  pub failure_reason : Option String

abbrev pub no_changes : Changes
no_changes = record {
  resulting_commit_sha = none;
  validation_status = none;
  pr_number = none;
  pr_url = none;
  failure_reason = none;
}

-- `if value is not None: values[column] = value`
abbrev pub set_if {ℓ} : {A : Type ℓ} → Option A → Option A → Option A
set_if none old = old
set_if (some value) old = some value

abbrev pub change : Datetime → MutationStatus → Changes → MutationRecord → MutationRecord
change t status c r = record r {
  status = status;
  updated_at = t;
  resulting_commit_sha = set_if c.resulting_commit_sha r.resulting_commit_sha;
  validation_status = set_if c.validation_status r.validation_status;
  pr_number = set_if c.pr_number r.pr_number;
  pr_url = set_if c.pr_url r.pr_url;
  failure_reason = set_if c.failure_reason r.failure_reason;
}

unfoldable pub update_status : String → MutationStatus → Changes → M (Option MutationRecord)
unfolding update_one
update_status mutation_id status c = do
  t ← now
  update_one mutations (has_id mutation_id) (change t status c)
