-- ===== src/Tests.antt =====
-- Concrete runs of the modelled parts of app/: the rows and the environment that they share, and the
-- theorems applied to them.
mod Fixtures
mod Sessions
mod Ticks
mod Conversations
mod Calls
mod Deliveries
mod Decisions
mod Payments
mod Webhooks
