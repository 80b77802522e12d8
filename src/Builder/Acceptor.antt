-- ===== src/Builder/Acceptor.antt =====
-- `TlsAcceptorBuilder` of src/lib.rs and `TlsAcceptor::builder`.
use rust_native_tls.Prelude.{Option, none, some}
use rust_native_tls.Protocol.{Protocol, tlsv10}

pub record TlsAcceptorBuilder (Identity : Type 0) : Type 0 where
  pub identity : Identity
  pub min_protocol : Option Protocol
  pub max_protocol : Option Protocol

-- `TlsAcceptor::builder`
unfoldable pub acceptor_builder : {I : Type 0} → I → TlsAcceptorBuilder I
acceptor_builder i = record { identity = i; min_protocol = some tlsv10; max_protocol = none }

module _ {I : Type 0} where
  unfoldable pub min_protocol_version :
      TlsAcceptorBuilder I → Option Protocol → TlsAcceptorBuilder I
  min_protocol_version b p = record b { min_protocol = p }

  unfoldable pub max_protocol_version :
      TlsAcceptorBuilder I → Option Protocol → TlsAcceptorBuilder I
  max_protocol_version b p = record b { max_protocol = p }
