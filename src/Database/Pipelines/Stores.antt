-- ===== src/Database/Pipelines/Stores.antt =====
-- What the operations of class PipelineRepository of src/packages/database/repositories.py keep.
use akesis.Common.{String, nat_eq, string_eq}
use akesis.Domain.{PipelineRecord, PipelineStatus}
use akesis.Runtime.{World}
use akesis.Runtime.Keeps.{Keeps, Timeless, keeps_rules}
use akesis.Database.Table.Stores.{Stores, select_one-Keeps, update_one-Keeps, insert_row-Keeps}
use akesis.Database.Pipelines.{
  pipelines, Changes, update_pipeline_state, create_pipeline, get_by_incident_id,
  get_by_approval_id,
}

module _ {P : World → Type 0} (t : Timeless P) (s : Stores pipelines P) where
  pub update-Keeps :
      (id : String) (status : PipelineStatus) (c : Changes)
      → Keeps P (update_pipeline_state id status c)
  unfolding update_pipeline_state
  update-Keeps id status c = search (keeps_rules, t, s, update_one-Keeps)

  pub create-Keeps : (r : PipelineRecord) → Keeps P (create_pipeline r)
  unfolding create_pipeline
  create-Keeps r = search (s, insert_row-Keeps)

module _ {P : World → Type 0} where
  pub by_incident-Keeps : (id : String) → Keeps P (get_by_incident_id id)
  unfolding get_by_incident_id
  by_incident-Keeps id = search select_one-Keeps

  pub by_approval-Keeps : (id : String) → Keeps P (get_by_approval_id id)
  unfolding get_by_approval_id
  by_approval-Keeps id = search select_one-Keeps
