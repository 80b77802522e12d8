-- ===== src/Openssl.antt =====
-- The backend of src/imp/openssl.rs.
pub mod Library
pub mod View
pub mod Error
pub mod Identity
pub mod Trust
pub mod Connector
pub mod Stream
pub mod Tests
pub mod Versions
pub mod Alpn
