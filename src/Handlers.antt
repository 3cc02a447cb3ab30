-- ===== src/Handlers.antt =====
-- app/webhooks/handlers.py: what each Razorpay event does. An event is read by key: a missing
-- entity is Python's KeyError.
mod Events
mod Failures
mod Recoveries
pub mod Frames
pub mod Laws
unfoldable pub use Events.*
unfoldable pub use Failures.*
unfoldable pub use Recoveries.*
