-- ===== src/Api/Apple.antt =====
-- The Security Framework backend, src/imp/security_framework.rs, behind the interface of
-- src/lib.rs, with the sources and the texts of its library's errors.
use Prim.Native.String.{String}
use rust_native_tls.Prelude.{Option}
use rust_native_tls.Prelude.State.{lift}
use rust_native_tls.Api.Backend.{Backend, HandshakeError, failure, would_block}
use rust_native_tls.SecurityFramework.Library
use rust_native_tls.SecurityFramework.Error
use rust_native_tls.SecurityFramework.Process
use rust_native_tls.SecurityFramework.Identity
use rust_native_tls.SecurityFramework.Pkcs12
use rust_native_tls.SecurityFramework.Certificate
use rust_native_tls.SecurityFramework.Connector
use rust_native_tls.SecurityFramework.Stream

module _ (L : Library.Library) (target : Process.Target) (Cause : Type 0)
    (source : L.BaseError → Option Cause) (text : L.BaseError → String) where
  abbrev pub variant :
      Connector.HandshakeError L → HandshakeError L.BaseError (Connector.MidHandshakeTlsStream L)
  variant (Connector.failed e) = failure e
  variant (Connector.blocked mid) = would_block mid

  abbrev pub backend : Backend
  backend = record {
    errors = record {
      Error = Error.Error L;
      Cause = Cause;
      source = Error.source L source;
      display = Error.display L text;
      debug = Error.debug L;
    };
    credentials = record {
      Process = Process.Process L;
      Identity = Identity.Identity L;
      Certificate = L.SecCertificate;
      from_pkcs12 = Pkcs12.from_pkcs12 L target;
      from_pkcs8 = Identity.from_pkcs8 L target;
      from_der = Certificate.certificate_from_der L;
      from_pem = Certificate.certificate_from_pem L target;
      to_der = Certificate.certificate_to_der L;
    };
    connections = record {
      Socket = L.Socket;
      MidHandshakeTlsStream = Connector.MidHandshakeTlsStream L;
      TlsStream = Connector.TlsStream L;
      ImpHandshakeError = Connector.HandshakeError L;
      variant = variant;
      mid_debug = Stream.mid_handshake_debug L;
      mid_get_ref = Stream.mid_handshake_get_ref L;
      mid_get_mut = Stream.mid_handshake_get_mut L;
      handshake = Connector.handshake L;
      TlsConnector = Connector.TlsConnector L;
      connector_new = λ builder. lift (Connector.new L builder);
      connect = Connector.connect L;
      TlsAcceptor = Connector.TlsAcceptor L;
      acceptor_new = Connector.acceptor_new L;
      accept = Connector.accept L;
    };
    streams = record {
      StreamError = L.StreamError;
      stream_debug = Stream.debug L;
      get_ref = Stream.get_ref L;
      get_mut = Stream.get_mut L;
      buffered_read_size = Stream.buffered_read_size L;
      peer_certificate = Stream.peer_certificate L;
      tls_server_end_point = Stream.tls_server_end_point L target;
      negotiated_alpn = Stream.negotiated_alpn L;
      shutdown = Stream.shutdown L;
      read = Stream.read L;
      write = Stream.write L;
      flush = Stream.flush L;
    };
  }
