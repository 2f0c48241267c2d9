-- ===== src/Gateway.antt =====
-- lib/gateway-server.js, without a Redis queue: requests wait in `memoryQueue`.
pub mod Types
pub mod Send
pub mod Timing
pub mod Sorting
pub mod Finish
pub mod Connect
pub mod Pump
pub mod Enqueue
pub mod Receive
pub mod Steps
pub mod Queued
pub mod Health
pub mod Core
pub mod Reachable
pub mod Tests
pub mod Examples
