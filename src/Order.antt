-- ===== src/Order.antt =====
-- The order service (services/order).
pub mod Status
pub mod Db
pub mod Transition
pub mod Consumer
pub mod Create
pub mod Api
pub mod Migrations
