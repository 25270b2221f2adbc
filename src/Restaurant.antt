-- ===== src/Restaurant.antt =====
-- The restaurant service (services/restaurant): its database, the stock, and the consumer of
-- order.placed and stock.release.
pub mod Stock
pub mod Consumer
pub mod Api
pub mod Migrations
