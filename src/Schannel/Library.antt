-- ===== src/Schannel/Library.antt =====
-- What src/imp/schannel.rs uses of the crate `schannel`: types and functions, as parameters. The
-- errors of that crate are `io::Error`s. Calls that change the system's key store take its state.
use rust_native_tls.Prelude.{ℕ, Bool, Option, List, Result, IoError}
use Prim.Native.String.{String}

abbrev pub Io : Type 0
Io = IoError String

abbrev pub Fallible : Type 0 → Type 0
Fallible A = Result Io A

-- `CertAdd`
pub data CertAdd : Type 0 where
  always replace_existing : CertAdd

-- `HashAlgorithm`
pub data HashAlgorithm : Type 0 where
  sha256 sha384 sha512 : HashAlgorithm

-- `Direction`
pub data Direction : Type 0 where
  inbound outbound : Direction

-- The width of the target's `usize`.
pub data Width : Type 0 where
  bits_32 bits_64 : Width

pub record Certificates : Type 1 where
  pub width : Width
  pub CertContext : Type 0
  pub context_eq : CertContext → CertContext → Bool
  pub CertStore : Type 0
  pub certs : CertStore → List CertContext
  -- `Memory::new()?.into_store()`
  pub memory_store : Fallible CertStore
  pub cert_new : List ℕ → Fallible CertContext
  pub cert_from_pem : List ℕ → Fallible CertContext
  pub cert_to_der : CertContext → List ℕ
  pub sign_hash_algorithms : CertContext → Fallible (List ℕ)
  pub fingerprint : CertContext → HashAlgorithm → Fallible (List ℕ)
  -- `store.add_cert(cert, how)`: the store after the call, and the certificate in the store.
  pub add_cert : CertStore → CertContext → CertAdd → Fallible (CertStore × CertContext)
  pub System : Type 0
  -- `PfxImportOptions::new().password(pass).import(buf)`, which puts the archive's private keys into
  -- the system's key store.
  pub pfx_import : List ℕ → List ℕ → System → System × Fallible CertStore
  -- `private_key().silent(true).compare_key(true).acquire().is_ok()`
  pub has_private_key : System → CertContext → Bool
  pub CryptProv : Type 0
  -- `AcquireOptions` with a container's name, and with `new_keyset`, for `rsa_full`.
  pub acquire : List ℕ → Bool → System → System × Fallible CryptProv
  pub import_pkcs8_pem : CryptProv → List ℕ → System → System × Fallible (Unit {0})
  -- `set_key_prov_info` of the container, which changes the certificate.
  pub set_key_prov_info : CertContext → List ℕ → Fallible CertContext

-- Connections over one type of inner stream.
pub record Streams (K : Certificates) : Type 1 where
  pub Protocol : Type 0
  pub ssl3 : Protocol
  pub tls10 : Protocol
  pub tls11 : Protocol
  pub tls12 : Protocol
  -- `SchannelCred::builder()` and its methods.
  pub CredBuilder : Type 0
  pub cred_builder : CredBuilder
  pub enabled_protocols : CredBuilder → List Protocol → CredBuilder
  pub cert : CredBuilder → K.CertContext → CredBuilder
  pub SchannelCred : Type 0
  pub acquire_cred : CredBuilder → Direction → Fallible SchannelCred
  -- What a verification callback is given, and `res.result()` and `res.chain()` of it.
  pub CertValidationResult : Type 0
  pub result : CertValidationResult → Fallible (Unit {0})
  pub chain : CertValidationResult → Option (List K.CertContext)
  -- `tls_stream::Builder` and its methods.
  pub Builder : Type 0
  pub builder_new : Builder
  pub cert_store : Builder → K.CertStore → Builder
  pub domain : Builder → List ℕ → Builder
  pub use_sni : Builder → Bool → Builder
  pub accept_invalid_hostnames : Builder → Bool → Builder
  pub verify_callback : Builder → (CertValidationResult → Fallible (Unit {0})) → Builder
  pub request_application_protocols : Builder → List (List ℕ) → Builder
  pub Socket : Type 0
  pub TlsStream : Type 0
  pub MidHandshakeTlsStream : Type 0
  pub get_ref : TlsStream → Socket
  pub mid_get_ref : MidHandshakeTlsStream → Socket
  -- A borrow of the inner stream: what it is, and the whole once the borrower has changed it.
  pub get_mut : TlsStream → Socket × (Socket → TlsStream)
  pub mid_get_mut : MidHandshakeTlsStream → Socket × (Socket → MidHandshakeTlsStream)
  -- `{:?}` of the library's types.
  pub io_debug : Io → String
  pub mid_debug : MidHandshakeTlsStream → String
  pub stream_debug : TlsStream → String
  pub get_buf : TlsStream → List ℕ
  pub is_server : TlsStream → Bool
  pub certificate : TlsStream → Fallible K.CertContext
  pub peer_certificate : TlsStream → Fallible K.CertContext
  pub negotiated_application_protocol : TlsStream → Fallible (Option (List ℕ))
  pub shutdown : TlsStream → TlsStream × Fallible (Unit {0})
  pub read : TlsStream → List ℕ → TlsStream × List ℕ × Fallible ℕ
  pub write : TlsStream → List ℕ → TlsStream × Fallible ℕ
  pub flush : TlsStream → TlsStream × Fallible (Unit {0})

-- `tls_stream::HandshakeError`
pub data LibraryHandshakeError (K : Certificates) (S : Streams K) : Type 0 where
  failure : Io → LibraryHandshakeError K S
  interrupted : S.MidHandshakeTlsStream → LibraryHandshakeError K S

pub record Handshakes (K : Certificates) (S : Streams K) : Type 0 where
  pub connect :
      S.Builder → S.SchannelCred → S.Socket → Result (LibraryHandshakeError K S) S.TlsStream
  pub accept :
      S.Builder → S.SchannelCred → S.Socket → Result (LibraryHandshakeError K S) S.TlsStream
  pub resume : S.MidHandshakeTlsStream → Result (LibraryHandshakeError K S) S.TlsStream

pub record Library : Type 1 where
  pub certificates : Certificates
  pub open certificates use *
  pub streams : Streams certificates
  pub open streams use *
  pub handshakes : Handshakes certificates streams
  pub open handshakes use *
