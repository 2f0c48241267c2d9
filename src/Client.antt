-- ===== src/Client.antt =====
-- lib/gateway-client.js: the POD's side. A `GatewayClient` connects, sends calls and settles their
-- promises.
pub mod Types
pub mod Calls
pub mod Messages
pub mod Connection
pub mod Steps
pub mod Settling
pub mod Waiting
mod Examples
pub mod Refusal
pub mod Answering
pub mod Closing
