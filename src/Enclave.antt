-- ===== src/Enclave.antt =====
-- src/aws and src/init: the first process of the enclave.
pub mod System
pub mod Aws
pub mod Init
