-- ===== src/Schannel.antt =====
-- The backend of src/imp/schannel.rs.
pub mod Library
pub mod Error
pub mod Tests
pub mod Protocols
pub mod Pem
pub mod Certificate
pub mod Identity
pub mod Connector
pub mod Stream
