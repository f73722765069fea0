-- ===== src/Serde.antt =====
-- What `#[derive(Serialize)]` hands to a serializer, and the BCS format as the `bcs` crate documents it.
-- `bcs::to_bytes` itself is a parameter, a `Bcs`; `IsBcs` states what the code relies on.
pub mod Value
pub mod Encode
pub mod Format
pub mod Json
