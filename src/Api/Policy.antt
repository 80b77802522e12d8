-- ===== src/Api/Policy.antt =====
-- From the builder of src/lib.rs to the library: what a connection of `TlsConnectorBuilder::build` and
-- `TlsConnector::connect` asks for.
pub mod Openssl
pub mod OpensslServe
pub mod Apple
pub mod AppleServe
pub mod Schannel
