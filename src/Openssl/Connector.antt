-- ===== src/Openssl/Connector.antt =====
-- `TlsConnector` and `TlsAcceptor` of src/imp/openssl.rs.
pub mod Config
pub mod SetUp
pub mod Calls
pub mod Total
pub mod Connect
pub mod Acceptor
pub mod Once
pub mod Debug
use rust_native_tls.Prelude.{
  ℕ, Bool, true, false, not, Option, none, some, List, [], ◌∷◌, Result, ok, err, panic, ◌>>=◌,
  map_err, if◌then◌else◌,
}
use rust_native_tls.Builder.Connector.{TlsConnectorBuilder}
use rust_native_tls.Builder.Acceptor.{TlsAcceptorBuilder}
use rust_native_tls.Openssl.Library.{Library}
use rust_native_tls.Openssl.Error.{Error, HandshakeError, from_stack, from_ssl}
use rust_native_tls.Openssl.Identity.{Identity, Fallible, try}
use rust_native_tls.Openssl.Alpn.{alpn_wire_format}
use rust_native_tls.Openssl.Trust.{Process, Dir, init_trust, load_android_root_certs}
use rust_native_tls.Openssl.Versions.{supported_protocols}

pub record TlsConnector (L : Library) : Type 0 where
  pub connector : L.SslConnector
  pub use_sni : Bool
  pub accept_invalid_hostnames : Bool
  pub accept_invalid_certs : Bool

-- What the build fixes: the `have_min_max_version` of the build script, and for a build for Android
-- what `/system/etc/security/cacerts` holds.
pub record Build : Type 0 where
  pub have_min_max_version : Bool
  pub android : Option Dir

module _ (L : Library) where
  open L use {SslContextBuilder, X509}

  -- `for cert in identity.0.chain.iter() { connector.add_extra_chain_cert(cert.to_owned())?; }`
  unfoldable pub add_chain : SslContextBuilder → List X509 → Fallible L SslContextBuilder
  add_chain ctx [] = ok ctx
  add_chain ctx (cert ∷ chain) = do
    ctx ← try L (L.add_extra_chain_cert ctx cert)
    add_chain ctx chain

  unfoldable pub use_identity :
      SslContextBuilder → Option (Identity L) → Fallible L SslContextBuilder
  use_identity ctx none = ok ctx
  use_identity ctx (some identity) = do
    ctx ← try L (L.set_certificate ctx identity.cert)
    ctx ← try L (L.set_private_key ctx identity.pkey)
    add_chain ctx identity.chain

  unfoldable pub use_own_store : SslContextBuilder → Bool → Fallible L SslContextBuilder
  use_own_store ctx false = ok ctx
  use_own_store ctx true = do
    builder ← try L L.store_builder_new
    ok (L.set_cert_store ctx (L.store_build builder))

  -- The loop over `root_certificates`. What `add_cert` says is only logged.
  unfoldable pub add_roots : SslContextBuilder → List X509 → SslContextBuilder
  add_roots ctx [] = ctx
  add_roots ctx (cert ∷ certs) = add_roots (L.add_cert ctx cert).0 certs

  unfoldable pub use_alpn : SslContextBuilder → List (List ℕ) → Fallible L SslContextBuilder
  use_alpn ctx [] = ok ctx
  use_alpn ctx (name ∷ names) = try L (L.set_alpn_protos ctx (alpn_wire_format (name ∷ names)))

  unfoldable pub use_android : SslContextBuilder → Option Dir → SslContextBuilder
  use_android ctx none = ctx
  use_android ctx (some dir) = load_android_root_certs L dir ctx

  -- The calls of `TlsConnector::new` on the context, between its creation and `build`.
  unfoldable pub set_up :
      Build
      → TlsConnectorBuilder (Identity L) X509
      → SslContextBuilder
      → Fallible L SslContextBuilder
  set_up build builder ctx = do
    ctx ← use_identity ctx builder.identity
    ctx ← try L (
        supported_protocols L.crypto L.context build.have_min_max_version builder.min_protocol
          builder.max_protocol ctx)
    ctx ← use_own_store ctx builder.disable_built_in_roots
    let ctx = add_roots ctx builder.root_certificates
    ctx ← use_alpn ctx builder.alpn
    ok (use_android ctx build.android)

  new_after :
      Build → TlsConnectorBuilder (Identity L) X509 → Process L → Fallible L (TlsConnector L)
  new_after build builder process = do
    ctx ← try L (L.connector_builder process.env)
    ctx ← set_up build builder ctx
    ok (record {
      connector = L.build_connector ctx;
      use_sni = builder.use_sni;
      accept_invalid_hostnames = builder.accept_invalid_hostnames;
      accept_invalid_certs = builder.accept_invalid_certs;
    })

  -- `TlsConnector::new`, with the process after the call.
  unfoldable pub new :
      Build
      → TlsConnectorBuilder (Identity L) X509
      → Process L
      → Fallible L (TlsConnector L) × Process L
  unfolding new_after
  new build builder process =
      let process' = init_trust L process in (new_after build builder process', process')

  -- The configuration that `TlsConnector::connect` hands to the library.
  unfoldable pub connect_configuration :
      TlsConnector L → Result (HandshakeError L) L.ConnectConfiguration
  connect_configuration self = do
    cfg ← map_err (from_stack L) (L.configure self.connector)
    let ssl =
        L.verify_hostname (L.use_server_name_indication cfg self.use_sni)
          (not self.accept_invalid_hostnames)
    ok (if self.accept_invalid_certs then L.set_verify ssl L.verify_none else ssl)

  unfoldable pub connect :
      TlsConnector L → List ℕ → L.Socket → Result (HandshakeError L) L.SslStream
  unfolding connect_configuration
  connect self domain stream = do
    ssl ← connect_configuration self
    map_err (from_ssl L) (L.connect ssl domain stream)

  -- `TlsAcceptor::new`, up to `build`.
  unfoldable pub acceptor_set_up :
      Build → TlsAcceptorBuilder (Identity L) → SslContextBuilder → Fallible L SslContextBuilder
  acceptor_set_up build builder ctx = do
    ctx ← try L (L.set_private_key ctx builder.identity.pkey)
    ctx ← try L (L.set_certificate ctx builder.identity.cert)
    ctx ← add_chain ctx builder.identity.chain
    try L (
        supported_protocols L.crypto L.context build.have_min_max_version builder.min_protocol
          builder.max_protocol ctx)

  unfoldable pub acceptor_new : Build → TlsAcceptorBuilder (Identity L) → Fallible L L.SslAcceptor
  acceptor_new build builder = do
    ctx ← try L L.mozilla_intermediate
    ctx ← acceptor_set_up build builder ctx
    ok (L.build_acceptor ctx)

  unfoldable pub accept : L.SslAcceptor → L.Socket → Result (HandshakeError L) L.SslStream
  accept self stream = map_err (from_ssl L) (L.accept self stream)

  -- `MidHandshakeTlsStream::handshake`
  unfoldable pub handshake : L.MidHandshakeSslStream → Result (HandshakeError L) L.SslStream
  handshake mid = map_err (from_ssl L) (L.resume mid)
