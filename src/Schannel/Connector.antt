-- ===== src/Schannel/Connector.antt =====
-- `TlsConnector`, `TlsAcceptor` and `HandshakeError` of src/imp/schannel.rs.
pub mod Verify
pub mod Connect
pub mod Accepts
use rust_native_tls.Prelude.{
  ℕ, Bool, true, false, Option, none, some, List, [], ◌∷◌, Result, ok, err, ◌>>=◌, ◌>>◌, ◌||◌,
  map_err, custom, other, if◌then◌else◌,
}
use rust_native_tls.Protocol.{Protocol}
use rust_native_tls.Builder.Connector.{TlsConnectorBuilder}
use rust_native_tls.Builder.Acceptor.{TlsAcceptorBuilder}
use rust_native_tls.Schannel.Error.{from}
use rust_native_tls.Schannel.Library.{
  Library, Io, Fallible, LibraryHandshakeError, failure, interrupted, replace_existing, inbound,
  outbound,
}
use rust_native_tls.Schannel.Protocols.{convert_protocols}

pub data HandshakeError (L : Library) : Type 0 where
  failed : Io → HandshakeError L
  blocked : L.MidHandshakeTlsStream → HandshakeError L

pub record TlsConnector (L : Library) : Type 0 where
  pub cert : Option L.CertContext
  pub roots : L.CertStore
  pub min_protocol : Option Protocol
  pub max_protocol : Option Protocol
  pub use_sni : Bool
  pub accept_invalid_hostnames : Bool
  pub accept_invalid_certs : Bool
  pub disable_built_in_roots : Bool
  pub alpn : List (List ℕ)

pub record TlsAcceptor (L : Library) : Type 0 where
  pub cert : L.CertContext
  pub min_protocol : Option Protocol
  pub max_protocol : Option Protocol

module _ (L : Library) where
  open L use {CertContext, CertStore}

  -- `From<tls_stream::HandshakeError<S>> for HandshakeError<S>`
  unfoldable pub from_library : LibraryHandshakeError L.certificates L.streams → HandshakeError L
  from_library (failure e) = failed e
  from_library (interrupted mid) = blocked mid

  -- `From<io::Error> for HandshakeError<S>`
  abbrev pub from_io : Io → HandshakeError L
  from_io e = failed (from e)

  -- The loop over `root_certificates`.
  unfoldable pub add_roots : CertStore → List CertContext → Fallible CertStore
  add_roots store [] = ok store
  add_roots store (cert ∷ certs) = do
    added ← L.add_cert store cert replace_existing
    add_roots added.0 certs

  unfoldable pub new : TlsConnectorBuilder CertContext CertContext → Fallible (TlsConnector L)
  new builder = do
    store ← L.memory_store
    roots ← add_roots store builder.root_certificates
    ok (record {
      cert = builder.identity;
      roots = roots;
      min_protocol = builder.min_protocol;
      max_protocol = builder.max_protocol;
      use_sni = builder.use_sni;
      accept_invalid_hostnames = builder.accept_invalid_hostnames;
      accept_invalid_certs = builder.accept_invalid_certs;
      disable_built_in_roots = builder.disable_built_in_roots;
      alpn = builder.alpn;
    })

  -- `iter.any(test)`
  unfoldable pub any : {A : Type 0} → (A → Bool) → List A → Bool
  any test [] = false
  any test (x ∷ xs) = test x || any test xs

  unfoldable pub has_root : CertStore → Option (List CertContext) → Bool
  unfolding any
  has_root roots none = false
  has_root roots (some chain) =
      any (λ cert. any (λ root. L.context_eq root cert) (L.certs roots)) chain

  abbrev pub accept_rooted : Bool → Fallible (Unit {0})
  accept_rooted true = ok tt
  accept_rooted false =
      err (custom other "unable to find any user-specified roots in the final cert chain")

  -- The callback for `disable_built_in_roots`.
  unfoldable pub verify_roots : CertStore → L.CertValidationResult → Fallible (Unit {0})
  verify_roots roots res = do L.result res; accept_rooted (has_root roots (L.chain res))

  abbrev pub versions : Option Protocol → Option Protocol → List L.Protocol
  versions = convert_protocols L.ssl3 L.tls10 L.tls11 L.tls12

  unfoldable pub add_own : L.CredBuilder → Option CertContext → L.CredBuilder
  add_own builder none = builder
  add_own builder (some cert) = L.cert builder cert

  unfoldable pub set_callback : TlsConnector L → L.Builder → L.Builder
  set_callback self builder =
      if self.accept_invalid_certs
      then L.verify_callback builder (λ res. ok tt)
      else if self.disable_built_in_roots
      then L.verify_callback builder (verify_roots self.roots)
      else builder

  unfoldable pub set_alpn : L.Builder → List (List ℕ) → L.Builder
  set_alpn builder [] = builder
  set_alpn builder (name ∷ names) = L.request_application_protocols builder (name ∷ names)

  -- The stream builder of `connect`, before the handshake.
  unfoldable pub connect_builder : TlsConnector L → List ℕ → L.Builder
  connect_builder self domain =
      let stored = L.cert_store L.builder_new self.roots in
      let named = L.use_sni (L.domain stored domain) self.use_sni in
      let builder = L.accept_invalid_hostnames named self.accept_invalid_hostnames in
      set_alpn (set_callback self builder) self.alpn

  unfoldable pub connect :
      TlsConnector L → List ℕ → L.Socket → Result (HandshakeError L) L.TlsStream
  connect self domain stream = do
    let builder = L.enabled_protocols L.cred_builder (versions self.min_protocol self.max_protocol)
    cred ← map_err from_io (L.acquire_cred (add_own builder self.cert) outbound)
    map_err from_library (L.connect (connect_builder self domain) cred stream)

  unfoldable pub acceptor_new : TlsAcceptorBuilder CertContext → Fallible (TlsAcceptor L)
  acceptor_new builder = ok (record {
    cert = builder.identity;
    min_protocol = builder.min_protocol;
    max_protocol = builder.max_protocol;
  })

  unfoldable pub accept : TlsAcceptor L → L.Socket → Result (HandshakeError L) L.TlsStream
  accept self stream = do
    let builder = L.enabled_protocols L.cred_builder (versions self.min_protocol self.max_protocol)
    cred ← map_err from_io (L.acquire_cred (L.cert builder self.cert) inbound)
    map_err from_library (L.accept L.builder_new cred stream)

  -- `MidHandshakeTlsStream::handshake`
  unfoldable pub handshake : L.MidHandshakeTlsStream → Result (HandshakeError L) L.TlsStream
  handshake mid = map_err from_library (L.resume mid)
