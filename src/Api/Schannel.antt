-- ===== src/Api/Schannel.antt =====
-- The SChannel backend, src/imp/schannel.rs, behind the interface of
-- src/lib.rs, with the sources and the texts of its library's errors.
use Prim.Native.String.{String}
use rust_native_tls.Prelude.{Option}
use rust_native_tls.Prelude.State.{lift}
use rust_native_tls.Api.Backend.{Backend, HandshakeError, failure, would_block}
use rust_native_tls.Schannel.Library
use rust_native_tls.Schannel.Error
use rust_native_tls.Schannel.Certificate
use rust_native_tls.Schannel.Identity
use rust_native_tls.Schannel.Connector
use rust_native_tls.Schannel.Stream

module _ (L : Library.Library) (Cause : Type 0) (source : Library.Io → Option Cause)
    (text : Library.Io → String) where
  abbrev pub variant :
      Connector.HandshakeError L → HandshakeError Library.Io L.MidHandshakeTlsStream
  variant (Connector.failed e) = failure e
  variant (Connector.blocked mid) = would_block mid

  abbrev pub backend : Backend
  backend = record {
    errors = record {
      Error = Error.Error;
      Cause = Cause;
      source = Error.source source;
      display = Error.display text;
      debug = Error.debug L.io_debug;
    };
    credentials = record {
      Process = Identity.Process L;
      Identity = L.CertContext;
      Certificate = L.CertContext;
      from_pkcs12 = Identity.from_pkcs12 L;
      from_pkcs8 = Identity.from_pkcs8 L;
      from_der = Certificate.certificate_from_der L;
      from_pem = λ pem. lift (Certificate.certificate_from_pem L pem);
      to_der = Certificate.certificate_to_der L;
    };
    connections = record {
      Socket = L.Socket;
      MidHandshakeTlsStream = L.MidHandshakeTlsStream;
      TlsStream = L.TlsStream;
      ImpHandshakeError = Connector.HandshakeError L;
      variant = variant;
      mid_debug = Stream.mid_handshake_debug L;
      mid_get_ref = Stream.mid_handshake_get_ref L;
      mid_get_mut = Stream.mid_handshake_get_mut L;
      handshake = Connector.handshake L;
      TlsConnector = Connector.TlsConnector L;
      connector_new = λ builder. lift (Connector.new L builder);
      connect = Connector.connect L;
      TlsAcceptor = Connector.TlsAcceptor L;
      acceptor_new = Connector.acceptor_new L;
      accept = Connector.accept L;
    };
    streams = record {
      StreamError = Library.Io;
      stream_debug = Stream.debug L;
      get_ref = Stream.get_ref L;
      get_mut = Stream.get_mut L;
      buffered_read_size = Stream.buffered_read_size L;
      peer_certificate = Stream.peer_certificate L;
      tls_server_end_point = Stream.tls_server_end_point L;
      negotiated_alpn = Stream.negotiated_alpn L;
      shutdown = Stream.shutdown L;
      read = Stream.read L;
      write = Stream.write L;
      flush = Stream.flush L;
    };
  }
