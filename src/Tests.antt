-- ===== src/Tests.antt =====
-- Runs of the model on small data, and the theorems at concrete inputs.
pub mod Restaurant
pub mod Order
pub mod Payment
pub mod Auth
pub mod Shared
pub mod Saga
pub mod Completion
pub mod Relays
pub mod Lifespan
pub mod Api
pub mod Migrations
