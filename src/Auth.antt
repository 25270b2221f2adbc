-- ===== src/Auth.antt =====
-- The auth service (services/auth).
pub mod Crypto
pub mod Db
pub mod Routes
pub mod RateLimiter
pub mod RedisClient
pub mod Migrations
