-- ===== src/Configuration.antt =====
-- The configuration of the gateway: lib/env.js, lib/runtime-config.js, and what
-- nodes/gateway-server-config.js derives.
pub mod Env
pub mod Dotenv
pub mod Runtime
pub mod Margin
mod Examples
