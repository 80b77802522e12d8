-- ===== src/SecurityFramework.antt =====
-- The backend of src/imp/security_framework.rs.
pub mod Library
pub mod Error
pub mod Process
pub mod Identity
pub mod Pkcs12
pub mod Certificate
pub mod Directories
pub mod Connector
pub mod Digest
pub mod Stream
pub mod Tests
