-- ===== src/Orchestrator.antt =====
-- app/orchestrator.py: one tick of the work loop. `locked` tells which rows other transactions hold
-- (SKIP LOCKED), `before` is the order of the queue (Priority.goes_before renders it from the scores).
mod Delivery
mod Queue
mod Loop
pub mod Frames
pub mod Outcome
pub mod Tally
pub mod Contacts
pub mod Quiet
pub mod Cooldown
pub mod Trail
pub mod Fallback
unfoldable pub use Delivery.*
unfoldable pub use Loop.*
unfoldable pub use Queue.*
