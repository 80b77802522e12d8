-- ===== src/Api/Credentials.antt =====
-- `Identity`, `Certificate`, and the connectors and acceptors that src/lib.rs builds. `Error` is a
-- newtype around the backend's, so that `?` leaves an error alone.
use rust_native_tls.Prelude.{ℕ, List}
use rust_native_tls.Prelude.State.{M, ◌>>=◌, pure}
use rust_native_tls.Builder.Connector.{TlsConnectorBuilder, connector_builder}
use rust_native_tls.Api.Backend.{Backend}

module _ (B : Backend) where
  abbrev pub Code : Type 0 → Type 0
  Code A = M B.Process B.Error A

  unfoldable pub from_pkcs12 : List ℕ → List ℕ → Code B.Identity
  from_pkcs12 der password = do identity ← B.from_pkcs12 der password; pure identity

  unfoldable pub from_pkcs8 : List ℕ → List ℕ → Code B.Identity
  from_pkcs8 pem key = do identity ← B.from_pkcs8 pem key; pure identity

  unfoldable pub from_pem : List ℕ → Code B.Certificate
  from_pem pem = do cert ← B.from_pem pem; pure cert

  -- `TlsConnectorBuilder::build`
  unfoldable pub connector_build :
      TlsConnectorBuilder B.Identity B.Certificate → Code B.TlsConnector
  connector_build builder = do connector ← B.connector_new builder; pure connector

  -- `TlsConnector::new`
  unfoldable pub connector_new : Code B.TlsConnector
  unfolding connector_build
  connector_new = connector_build (connector_builder B.Identity B.Certificate)
