-- ===== src/Api/Openssl.antt =====
-- The OpenSSL backend, src/imp/openssl.rs, behind the interface of
-- src/lib.rs, with the sources and the texts of its library's errors.
use Prim.Native.String.{String}
use rust_native_tls.Prelude.{Bool, Option, IoError}
use rust_native_tls.Prelude.State.{M, lift}
use rust_native_tls.Builder.Connector.{TlsConnectorBuilder}
use rust_native_tls.Api.Backend.{Backend, HandshakeError, failure, would_block}
use rust_native_tls.Openssl.Library
use rust_native_tls.Openssl.Error
use rust_native_tls.Openssl.Identity
use rust_native_tls.Openssl.Connector
use rust_native_tls.Openssl.Stream
use rust_native_tls.Openssl.Trust

-- The sources and texts of the errors of the crate `openssl`.
pub record Texts (L : Library.Library) : Type 1 where
  pub Cause : Type 0
  pub stack_source : L.ErrorStack → Option Cause
  pub ssl_source : L.SslError → Option Cause
  pub stack_text : L.ErrorStack → String
  pub ssl_text : L.SslError → String
  pub verify_text : L.X509VerifyResult → String
  pub verify_is_ok : L.X509VerifyResult → Bool

module _ (L : Library.Library) (T : Texts L) (build : Connector.Build) where
  abbrev pub variant :
      Error.HandshakeError L → HandshakeError (Error.Error L) L.MidHandshakeSslStream
  variant (Error.failed e) = failure e
  variant (Error.blocked mid) = would_block mid

  -- The process after the call, first.
  abbrev pub connector_new :
      TlsConnectorBuilder (Identity.Identity L) L.X509
      → M (Trust.Process L) (Error.Error L) (Connector.TlsConnector L)
  connector_new builder p = let (r, p') = Connector.new L build builder p in (p', r)

  abbrev pub backend : Backend
  backend = record {
    errors = record {
      Error = Error.Error L;
      Cause = T.Cause;
      source = Error.source L T.stack_source T.ssl_source;
      display = Error.display L T.stack_text T.ssl_text T.verify_text T.verify_is_ok;
      debug = Error.debug L;
    };
    credentials = record {
      Process = Trust.Process L;
      Identity = Identity.Identity L;
      Certificate = L.X509;
      from_pkcs12 = λ der password. lift (Identity.from_pkcs12 L der password);
      from_pkcs8 = λ pem key. lift (Identity.from_pkcs8 L pem key);
      from_der = Identity.certificate_from_der L;
      from_pem = λ pem. lift (Identity.certificate_from_pem L pem);
      to_der = Identity.certificate_to_der L;
    };
    connections = record {
      Socket = L.Socket;
      MidHandshakeTlsStream = L.MidHandshakeSslStream;
      TlsStream = L.SslStream;
      ImpHandshakeError = Error.HandshakeError L;
      variant = variant;
      mid_debug = Stream.mid_handshake_debug L;
      mid_get_ref = Stream.mid_handshake_get_ref L;
      mid_get_mut = Stream.mid_handshake_get_mut L;
      handshake = Connector.handshake L;
      TlsConnector = Connector.TlsConnector L;
      connector_new = connector_new;
      connect = Connector.connect L;
      TlsAcceptor = L.SslAcceptor;
      acceptor_new = Connector.acceptor_new L build;
      accept = Connector.accept L;
    };
    streams = record {
      StreamError = IoError L.SslError;
      stream_debug = Stream.debug L;
      get_ref = Stream.get_ref L;
      get_mut = Stream.get_mut L;
      buffered_read_size = Stream.buffered_read_size L;
      peer_certificate = Stream.peer_certificate L;
      tls_server_end_point = Stream.tls_server_end_point L;
      negotiated_alpn = Stream.negotiated_alpn L;
      shutdown = Stream.shutdown L;
      read = Stream.read L;
      write = Stream.write L;
      flush = Stream.flush L;
    };
  }
