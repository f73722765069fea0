-- ===== src/Tests.antt =====
-- Each theorem applied at a concrete input, with concrete libraries in place of the parameters.
mod Reference
mod Orders
mod Hex
mod Signing
mod Server
mod Common
mod Enclave
