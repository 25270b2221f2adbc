-- ===== src/Payment.antt =====
-- The payment service (services/payment).
pub mod Gateway
pub mod Db
pub mod Consumer
pub mod Reconciliation
pub mod Intent
pub mod Recovery
pub mod Idempotent
pub mod Count
pub mod Outcomes
pub mod Api
pub mod Migrations
