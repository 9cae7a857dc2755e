-- ===== src/Domain.antt =====
-- src/packages/shared/models.py: the domain model, in the children.
-- A `datetime` is a number of microseconds, and a score is a number of millionths: the program
-- only compares, clamps and rounds scores, which Pydantic keeps between 0.0 and 1.0. The text of
-- an enumeration's member is its `value`.
mod Status
mod Failure
mod Proposal
mod Entity
unfoldable pub use Status.*
pub use Failure.*
pub use Proposal.*
pub use Entity.*
