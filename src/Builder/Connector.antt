-- ===== src/Builder/Connector.antt =====
-- `TlsConnectorBuilder` of src/lib.rs and `TlsConnector::builder`, with the `alpn` feature. The
-- newtypes `Identity` and `Certificate` of src/lib.rs are the backend's own types. A method that
-- takes `&mut self` returns the builder after the call.
use rust_native_tls.Prelude.{ℕ, Bool, true, false, Option, none, some, List, [], ◌∷◌, ◌++◌}
use rust_native_tls.Protocol.{Protocol, tlsv10}

pub record TlsConnectorBuilder (Identity Certificate : Type 0) : Type 0 where
  pub identity : Option Identity
  pub min_protocol : Option Protocol
  pub max_protocol : Option Protocol
  pub root_certificates : List Certificate
  pub accept_invalid_certs : Bool
  pub accept_invalid_hostnames : Bool
  pub use_sni : Bool
  pub disable_built_in_roots : Bool
  pub alpn : List (List ℕ)  -- the bytes of each name

-- `TlsConnector::builder`
unfoldable pub connector_builder : (I C : Type 0) → TlsConnectorBuilder I C
connector_builder I C = record {
  identity = none;
  min_protocol = some tlsv10;
  max_protocol = none;
  root_certificates = [];
  accept_invalid_certs = false;
  accept_invalid_hostnames = false;
  use_sni = true;
  disable_built_in_roots = false;
  alpn = [];
}

-- The methods of `TlsConnectorBuilder` but `build`.
module _ {I C : Type 0} where
  unfoldable pub identity : TlsConnectorBuilder I C → I → TlsConnectorBuilder I C
  identity b i = record b { identity = some i }

  unfoldable pub min_protocol_version :
      TlsConnectorBuilder I C → Option Protocol → TlsConnectorBuilder I C
  min_protocol_version b p = record b { min_protocol = p }

  unfoldable pub max_protocol_version :
      TlsConnectorBuilder I C → Option Protocol → TlsConnectorBuilder I C
  max_protocol_version b p = record b { max_protocol = p }

  unfoldable pub add_root_certificate : TlsConnectorBuilder I C → C → TlsConnectorBuilder I C
  add_root_certificate b c = record b { root_certificates = b.root_certificates ++ (c ∷ []) }

  unfoldable pub disable_built_in_roots : TlsConnectorBuilder I C → Bool → TlsConnectorBuilder I C
  disable_built_in_roots b v = record b { disable_built_in_roots = v }

  unfoldable pub request_alpns : TlsConnectorBuilder I C → List (List ℕ) → TlsConnectorBuilder I C
  request_alpns b names = record b { alpn = names }

  unfoldable pub danger_accept_invalid_certs :
      TlsConnectorBuilder I C → Bool → TlsConnectorBuilder I C
  danger_accept_invalid_certs b v = record b { accept_invalid_certs = v }

  unfoldable pub use_sni : TlsConnectorBuilder I C → Bool → TlsConnectorBuilder I C
  use_sni b v = record b { use_sni = v }

  unfoldable pub danger_accept_invalid_hostnames :
      TlsConnectorBuilder I C → Bool → TlsConnectorBuilder I C
  danger_accept_invalid_hostnames b v = record b { accept_invalid_hostnames = v }
