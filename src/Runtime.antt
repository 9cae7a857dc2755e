-- ===== src/Runtime.antt =====
-- What the services run on: the database, the clock, the identifiers that `uuid` will give, and
-- the effects that the outside can see. A method is an action: it returns or raises, and what was
-- committed before a raise stays committed.
mod State
mod Action
pub mod Post
pub mod Keeps
pub use State.*
pub use Action.*
