-- ===== src/Api/Backend.antt =====
-- What src/lib.rs uses of the module `imp`, the backend of the build. The newtypes of src/lib.rs stand
-- for the backend's types that they hold, as in Builder.
use Prim.Native.String.{String}
use rust_native_tls.Prelude.{ℕ, Option, List, Result}
use rust_native_tls.Prelude.State.{M}
use rust_native_tls.Builder.Connector.{TlsConnectorBuilder}
use rust_native_tls.Builder.Acceptor.{TlsAcceptorBuilder}

-- The two variants of `enum HandshakeError<S>`, which src/lib.rs and every backend declare.
pub data HandshakeError (E M : Type 0) : Type 0 where
  failure : E → HandshakeError E M
  would_block : M → HandshakeError E M

-- The errors of a backend, by the errors that their sources are.
pub record Errors : Type 1 where
  pub Error : Type 0
  pub Cause : Type 0
  pub source : Error → Option Cause
  pub display : Error → String
  pub debug : Error → String

-- Identities and certificates. Some calls change the process.
pub record Credentials (E : Errors) : Type 1 where
  pub Process : Type 0
  pub Identity : Type 0
  pub Certificate : Type 0
  pub from_pkcs12 : List ℕ → List ℕ → M Process E.Error Identity
  pub from_pkcs8 : List ℕ → List ℕ → M Process E.Error Identity
  pub from_der : List ℕ → Result E.Error Certificate
  pub from_pem : List ℕ → M Process E.Error Certificate
  pub to_der : Certificate → Result E.Error (List ℕ)

-- Connections over one type of inner stream.
pub record Connections (E : Errors) (C : Credentials E) : Type 1 where
  pub Socket : Type 0
  pub MidHandshakeTlsStream : Type 0
  pub TlsStream : Type 0
  -- The backend's `HandshakeError`, by its variant.
  pub ImpHandshakeError : Type 0
  pub variant : ImpHandshakeError → HandshakeError E.Error MidHandshakeTlsStream
  pub mid_get_ref : MidHandshakeTlsStream → Socket
  pub mid_debug : MidHandshakeTlsStream → String
  pub mid_get_mut : MidHandshakeTlsStream → Socket × (Socket → MidHandshakeTlsStream)
  pub handshake : MidHandshakeTlsStream → Result ImpHandshakeError TlsStream
  pub TlsConnector : Type 0
  pub connector_new :
      TlsConnectorBuilder C.Identity C.Certificate → M C.Process E.Error TlsConnector
  pub connect : TlsConnector → List ℕ → Socket → Result ImpHandshakeError TlsStream
  pub TlsAcceptor : Type 0
  pub acceptor_new : TlsAcceptorBuilder C.Identity → Result E.Error TlsAcceptor
  pub accept : TlsAcceptor → Socket → Result ImpHandshakeError TlsStream

-- The methods of a stream.
pub record Streams (E : Errors) (C : Credentials E) (K : Connections E C) : Type 1 where
  -- `io::Error`
  pub StreamError : Type 0
  pub get_ref : K.TlsStream → K.Socket
  pub stream_debug : K.TlsStream → String
  pub get_mut : K.TlsStream → K.Socket × (K.Socket → K.TlsStream)
  pub buffered_read_size : K.TlsStream → Result E.Error ℕ
  pub peer_certificate : K.TlsStream → Result E.Error (Option C.Certificate)
  pub tls_server_end_point : K.TlsStream → Result E.Error (Option (List ℕ))
  pub negotiated_alpn : K.TlsStream → Result E.Error (Option (List ℕ))
  pub shutdown : K.TlsStream → K.TlsStream × Result StreamError (Unit {0})
  pub read : K.TlsStream → List ℕ → K.TlsStream × List ℕ × Result StreamError ℕ
  pub write : K.TlsStream → List ℕ → K.TlsStream × Result StreamError ℕ
  pub flush : K.TlsStream → K.TlsStream × Result StreamError (Unit {0})

pub record Backend : Type 1 where
  pub errors : Errors
  pub open errors use *
  pub credentials : Credentials errors
  pub open credentials use *
  pub connections : Connections errors credentials
  pub open connections use *
  pub streams : Streams errors credentials connections
  pub open streams use *
