-- ===== src/Orders.antt =====
-- src/nautilus-server/src/orders: order responses and their signatures.
pub mod Types
pub mod Hex
pub mod Message
pub mod Json
pub mod Crypto
pub mod Signing
