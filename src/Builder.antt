-- ===== src/Builder.antt =====
-- The builders of src/lib.rs.
pub mod Connector
pub mod Acceptor
pub mod Calls
mod Tests
