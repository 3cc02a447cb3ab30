-- ===== src/World.antt =====
-- What the stateful code works on. A database session is the record `Db` of the tables; what was
-- asked of the outside is the list `sent`, oldest last; `reads` counts the readings of the clock.
-- An exception comes back beside the state that it left.
mod Entities
mod Monad
mod Tables
pub mod Steps
pub mod Post
pub mod Returns
pub use Entities.*
unfoldable pub use Tables.*
unfoldable pub use Monad.*
