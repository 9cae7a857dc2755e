-- ===== src/Database.antt =====
-- src/packages/database/repositories.py over the tables of src/packages/database/models.py.
pub mod Table
pub mod Approvals
pub mod Mutations
pub mod Pipelines
pub mod Listing
pub mod Incidents
