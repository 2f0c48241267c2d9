-- ===== src/StreamQueue.antt =====
-- lib/redis-stream-queue.js: the queue that several gateways share in Redis.
pub mod Commands
pub mod Store
pub mod Delivery
pub mod Balance
pub mod Pending
pub mod Draining
pub mod Records
pub mod Maps
mod Examples
