-- ===== src/Redis.antt =====
-- lib/redis-rate-limiter.js, lib/redis-reconnect.js and lib/redis-url.js: what the gateway decides
-- itself about its Redis connections. The `redis` package is not modelled.
pub mod Script
pub mod Reconnect
pub mod Url
pub mod Examples
