-- ===== src/Api.antt =====
-- The public types of src/lib.rs over the backend of the build.
pub mod Backend
pub mod Errors
pub mod Credentials
pub mod Connections
pub mod Streams
pub mod Openssl
pub mod Schannel
pub mod Apple
pub mod Retry
pub mod Policy
mod Tests
