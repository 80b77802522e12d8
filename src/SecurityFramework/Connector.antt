-- ===== src/SecurityFramework/Connector.antt =====
-- `TlsConnector`, `TlsAcceptor`, `MidHandshakeTlsStream` and `HandshakeError` of
-- src/imp/security_framework.rs. `Error` is a newtype around `base::Error`, and stands for it here.
pub mod Resume
pub mod Request
pub mod Serve
use rust_native_tls.Prelude.{
  ℕ, Bool, Option, none, some, List, [], ◌∷◌, Result, ok, err, panic, ◌>>=◌, map_err,
}
use rust_native_tls.Protocol.{Protocol, sslv3, tlsv10, tlsv11, tlsv12, non_exhaustive}
use rust_native_tls.Builder.Connector.{TlsConnectorBuilder}
use rust_native_tls.Builder.Acceptor.{TlsAcceptorBuilder}
use rust_native_tls.SecurityFramework.Identity.{Identity}
use rust_native_tls.SecurityFramework.Error.{from}
use rust_native_tls.SecurityFramework.Library.{Library, LibraryHandshakeError, failure, interrupted}

-- `enum MidHandshakeTlsStream<S>`
pub data MidHandshakeTlsStream (L : Library) : Type 0 where
  server : L.MidHandshakeSslStream → Option L.SecCertificate → MidHandshakeTlsStream L
  client : L.MidHandshakeClientBuilder → MidHandshakeTlsStream L

pub data HandshakeError (L : Library) : Type 0 where
  blocked : MidHandshakeTlsStream L → HandshakeError L
  failed : L.BaseError → HandshakeError L

pub record TlsStream (L : Library) : Type 0 where
  pub stream : L.SslStream
  pub cert : Option L.SecCertificate

pub record TlsConnector (L : Library) : Type 0 where
  pub identity : Option (Identity L)
  pub min_protocol : Option Protocol
  pub max_protocol : Option Protocol
  pub roots : List L.SecCertificate
  pub use_sni : Bool
  pub danger_accept_invalid_hostnames : Bool
  pub danger_accept_invalid_certs : Bool
  pub disable_built_in_roots : Bool
  pub alpn : List (List ℕ)

pub record TlsAcceptor (L : Library) : Type 0 where
  pub identity : Identity L
  pub min_protocol : Option Protocol
  pub max_protocol : Option Protocol

module _ (L : Library) where
  open L use {ClientBuilder, SslContext}

  abbrev pub Handshaken : Type 0
  Handshaken = Result (HandshakeError L) (TlsStream L)

  unfoldable pub convert_protocol : Protocol → Result (HandshakeError L) L.SslProtocol
  convert_protocol sslv3 = ok L.ssl3
  convert_protocol tlsv10 = ok L.tls1
  convert_protocol tlsv11 = ok L.tls11
  convert_protocol tlsv12 = ok L.tls12
  convert_protocol non_exhaustive = panic

  unfoldable pub new :
      TlsConnectorBuilder (Identity L) L.SecCertificate → Result L.BaseError (TlsConnector L)
  new builder = ok (record {
    identity = builder.identity;
    min_protocol = builder.min_protocol;
    max_protocol = builder.max_protocol;
    roots = builder.root_certificates;
    use_sni = builder.use_sni;
    danger_accept_invalid_hostnames = builder.accept_invalid_hostnames;
    danger_accept_invalid_certs = builder.accept_invalid_certs;
    disable_built_in_roots = builder.disable_built_in_roots;
    alpn = builder.alpn;
  })

  -- `From<secure_transport::ClientHandshakeError<S>> for HandshakeError<S>`
  from_client : LibraryHandshakeError L.transport L.MidHandshakeClientBuilder → HandshakeError L
  from_client (failure e) = failed e
  from_client (interrupted mid) = blocked (client mid)

  -- The `match` on a server's handshake, with the certificate that stays with the stream.
  from_server :
      Option L.SecCertificate
      → LibraryHandshakeError L.transport L.MidHandshakeSslStream
      → HandshakeError L
  from_server cert (failure e) = failed e
  from_server cert (interrupted mid) = blocked (server mid cert)

  unfoldable pub client_stream :
      Result (LibraryHandshakeError L.transport L.MidHandshakeClientBuilder) L.SslStream
      → Handshaken
  unfolding from_client
  client_stream r = do stream ← map_err from_client r; ok (record { stream = stream; cert = none })

  unfoldable pub server_stream :
      Option L.SecCertificate
      → Result (LibraryHandshakeError L.transport L.MidHandshakeSslStream) L.SslStream
      → Handshaken
  unfolding from_server
  server_stream cert r = do
    stream ← map_err (from_server cert) r
    ok (record { stream = stream; cert = cert })

  -- `MidHandshakeTlsStream::handshake`
  unfoldable pub handshake : MidHandshakeTlsStream L → Handshaken
  unfolding client_stream server_stream
  handshake (server mid cert) = server_stream cert (L.resume_server mid)
  handshake (client mid) = client_stream (L.resume_client mid)

  -- A bound that `set` sets where there is one.
  use_bound :
      (ClientBuilder → L.SslProtocol → ClientBuilder)
      → ClientBuilder
      → Option Protocol
      → Result (HandshakeError L) ClientBuilder
  unfolding convert_protocol
  use_bound set builder none = ok builder
  use_bound set builder (some p) = do v ← convert_protocol p; ok (set builder v)

  use_identity : ClientBuilder → Option (Identity L) → ClientBuilder
  use_identity builder none = builder
  use_identity builder (some i) = L.identity builder i.identity i.chain

  use_alpn : ClientBuilder → List (List ℕ) → ClientBuilder
  use_alpn builder [] = builder
  use_alpn builder (name ∷ names) = L.alpn_protocols builder (name ∷ names)

  -- The calls of `connect` on the builder after the bounds.
  unfoldable pub client_options : TlsConnector L → ClientBuilder → ClientBuilder
  unfolding use_identity use_alpn
  client_options self builder =
      let owned = use_identity builder self.identity in
      let anchored = L.use_sni (L.anchor_certificates owned self.roots) self.use_sni in
      let named = L.danger_accept_invalid_hostnames anchored self.danger_accept_invalid_hostnames in
      let checked = L.danger_accept_invalid_certs named self.danger_accept_invalid_certs in
      use_alpn (L.trust_anchor_certificates_only checked self.disable_built_in_roots) self.alpn

  unfoldable pub connect : TlsConnector L → List ℕ → L.Socket → Handshaken
  unfolding use_bound client_stream client_options
  connect self domain stream = do
    builder ← use_bound L.protocol_min L.client_builder_new self.min_protocol
    builder ← use_bound L.protocol_max builder self.max_protocol
    client_stream (L.client_handshake (client_options self builder) domain stream)

  unfoldable pub acceptor_new : TlsAcceptorBuilder (Identity L) → Result L.BaseError (TlsAcceptor L)
  acceptor_new builder = ok (record {
    identity = builder.identity;
    min_protocol = builder.min_protocol;
    max_protocol = builder.max_protocol;
  })

  -- `From<base::Error> for HandshakeError<S>`
  abbrev pub from_base : L.BaseError → HandshakeError L
  from_base e = failed (from L e)

  -- `?` on a result of the library.
  abbrev pub try : {A : Type 0} → Result L.BaseError A → Result (HandshakeError L) A
  try r = map_err from_base r

  set_bound :
      (SslContext → L.SslProtocol → Result L.BaseError SslContext)
      → SslContext
      → Option Protocol
      → Result (HandshakeError L) SslContext
  unfolding convert_protocol
  set_bound set ctx none = ok ctx
  set_bound set ctx (some p) = do v ← convert_protocol p; try (set ctx v)

  unfoldable pub accept : TlsAcceptor L → L.Socket → Handshaken
  unfolding set_bound server_stream
  accept self stream = do
    ctx ← try L.context_new
    ctx ← set_bound L.set_protocol_version_min ctx self.min_protocol
    ctx ← set_bound L.set_protocol_version_max ctx self.max_protocol
    ctx ← try (L.set_certificate ctx self.identity.identity self.identity.chain)
    cert ← try (L.identity_certificate self.identity.identity)
    server_stream (some cert) (L.server_handshake ctx stream)
