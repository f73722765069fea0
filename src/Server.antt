-- ===== src/Server.antt =====
-- src/nautilus-server/src/{lib,common,main}.rs: the HTTP server around the orders.
pub mod Errors
pub mod Processed
pub mod Attestation
pub mod Health
pub mod Handlers
pub mod Startup
