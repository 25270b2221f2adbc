-- ===== src/Shared.antt =====
-- What the four services share (shared/): events, the outbox, and the database as they use it.
pub mod Lifespan
pub mod Uuid
pub mod Text
pub mod Error
pub mod Table
pub mod Transaction
pub mod Event
pub mod Tables
pub mod Consumer
pub mod Outbox
pub mod Response
pub mod Middleware
pub mod Health
pub mod Migrations
