-- ===== src/Examples.antt =====
-- The programs under examples/, over the API of src/lib.rs.
pub mod Std
pub mod Wire
pub mod Total
pub mod Client
pub mod Server
pub mod Setup
mod Tests
