-- ===== src/SecurityFramework/Library.antt =====
-- What the connections of src/imp/security_framework.rs use of the crate `security-framework`: types
-- and functions, as parameters.
use Prim.Native.String.{String}
use rust_native_tls.Prelude.{ℕ, Bool, Option, List, Result}

-- `PropertyType` of a certificate's property, by the type of the properties in a section.
pub data PropertyType (P : Type 0) : Type 0 where
  section : List P → PropertyType P
  string : List ℕ → PropertyType P
  other : PropertyType P

pub record Transport : Type 1 where
  -- `base::Error`
  pub BaseError : Type 0
  pub SecCertificate : Type 0
  pub SecIdentity : Type 0
  -- `SecIdentity::certificate`
  pub identity_certificate : SecIdentity → Result BaseError SecCertificate
  pub SslProtocol : Type 0
  pub ssl3 : SslProtocol
  pub tls1 : SslProtocol
  pub tls11 : SslProtocol
  pub tls12 : SslProtocol
  -- `ClientBuilder` and its methods.
  pub ClientBuilder : Type 0
  pub client_builder_new : ClientBuilder
  pub protocol_min : ClientBuilder → SslProtocol → ClientBuilder
  pub protocol_max : ClientBuilder → SslProtocol → ClientBuilder
  pub identity : ClientBuilder → SecIdentity → List SecCertificate → ClientBuilder
  pub anchor_certificates : ClientBuilder → List SecCertificate → ClientBuilder
  pub use_sni : ClientBuilder → Bool → ClientBuilder
  pub danger_accept_invalid_hostnames : ClientBuilder → Bool → ClientBuilder
  pub danger_accept_invalid_certs : ClientBuilder → Bool → ClientBuilder
  pub trust_anchor_certificates_only : ClientBuilder → Bool → ClientBuilder
  pub alpn_protocols : ClientBuilder → List (List ℕ) → ClientBuilder
  -- `SslContext::new(SslProtocolSide::SERVER, SslConnectionType::STREAM)` and its methods.
  pub SslContext : Type 0
  pub context_new : Result BaseError SslContext
  pub set_protocol_version_min : SslContext → SslProtocol → Result BaseError SslContext
  pub set_protocol_version_max : SslContext → SslProtocol → Result BaseError SslContext
  pub set_certificate : SslContext → SecIdentity → List SecCertificate → Result BaseError SslContext
  pub Socket : Type 0
  pub SslStream : Type 0
  -- `io::Error`
  pub StreamError : Type 0
  pub MidHandshakeSslStream : Type 0
  pub MidHandshakeClientBuilder : Type 0
  -- `base::Error::from` of a code, `base::Error::code`, and two codes.
  pub from_code : ℕ → BaseError
  pub code : BaseError → ℕ
  pub err_sec_param : ℕ
  pub err_sec_io : ℕ
  pub sec_certificate_from_der : List ℕ → Result BaseError SecCertificate
  pub cert_to_der : SecCertificate → List ℕ
  pub server_get_ref : MidHandshakeSslStream → Socket
  pub client_get_ref : MidHandshakeClientBuilder → Socket
  pub get_ref : SslStream → Socket
  -- A borrow of the inner stream: what it is, and the whole once the borrower has changed it.
  pub server_get_mut : MidHandshakeSslStream → Socket × (Socket → MidHandshakeSslStream)
  pub client_get_mut : MidHandshakeClientBuilder → Socket × (Socket → MidHandshakeClientBuilder)
  pub get_mut : SslStream → Socket × (Socket → SslStream)
  -- `{:?}` of the library's types.
  pub base_debug : BaseError → String
  pub server_debug : MidHandshakeSslStream → String
  pub client_debug : MidHandshakeClientBuilder → String
  pub stream_debug : SslStream → String
  pub buffered_read_size : SslStream → Result BaseError ℕ
  pub SecTrust : Type 0
  pub peer_trust2 : SslStream → Result BaseError (Option SecTrust)
  pub evaluate : SecTrust → Result BaseError (Unit {0})
  pub certificate_at_index : SecTrust → ℕ → Option SecCertificate
  -- The bytes of the protocols' names.
  pub alpn_protocols_of : SslStream → Result BaseError (List (List ℕ))
  -- The properties of a certificate under the OID `x509_v1_signature_algorithm`.
  pub CertificateProperties : Type 0
  pub Property : Type 0
  pub properties : SecCertificate → Result BaseError CertificateProperties
  pub signature_algorithm : CertificateProperties → Option Property
  pub property_get : Property → PropertyType Property
  pub label : Property → List ℕ
  -- `CC_SHA224` and its like, on data, the length to read and a buffer: the buffer after the
  -- digest is written to it.
  pub cc_sha224 : List ℕ → ℕ → List ℕ → List ℕ
  pub cc_sha256 : List ℕ → ℕ → List ℕ → List ℕ
  pub cc_sha384 : List ℕ → ℕ → List ℕ → List ℕ
  pub cc_sha512 : List ℕ → ℕ → List ℕ → List ℕ
  pub close : SslStream → SslStream × Result StreamError (Unit {0})
  pub read : SslStream → List ℕ → SslStream × List ℕ × Result StreamError ℕ
  pub write : SslStream → List ℕ → SslStream × Result StreamError ℕ
  pub flush : SslStream → SslStream × Result StreamError (Unit {0})

-- `secure_transport::HandshakeError` and `ClientHandshakeError`, by what an interruption leaves.
pub data LibraryHandshakeError (T : Transport) (M : Type 0) : Type 0 where
  failure : T.BaseError → LibraryHandshakeError T M
  interrupted : M → LibraryHandshakeError T M

pub record Handshakes (T : Transport) : Type 0 where
  pub client_handshake :
      T.ClientBuilder
      → List ℕ
      → T.Socket
      → Result (LibraryHandshakeError T T.MidHandshakeClientBuilder) T.SslStream
  pub server_handshake :
      T.SslContext → T.Socket → Result (LibraryHandshakeError T T.MidHandshakeSslStream) T.SslStream
  pub resume_client :
      T.MidHandshakeClientBuilder
      → Result (LibraryHandshakeError T T.MidHandshakeClientBuilder) T.SslStream
  pub resume_server :
      T.MidHandshakeSslStream → Result (LibraryHandshakeError T T.MidHandshakeSslStream) T.SslStream

-- `SecItems`
pub record SecItems (Cert Ident Key : Type 0) : Type 0 where
  pub certificates : List Cert
  pub identities : List Ident
  pub keys : List Key

-- `ImportOptions`, but for where the items go.
pub record ImportOptions (Keychain : Type 0) : Type 0 where
  pub filename : Option (List ℕ)
  pub keychain : Option Keychain

-- What the code reads of an `ImportedIdentity`.
pub record ImportedIdentity (Cert Ident : Type 0) : Type 0 where
  pub identity : Option Ident
  pub cert_chain : Option (List Cert)

-- Key chains, imports, random bytes and the crate `tempfile`. These change the system.
pub record KeyStore (T : Transport) : Type 1 where
  pub System : Type 0
  pub TempDir : Type 0
  pub SecKeychain : Type 0
  pub SecKey : Type 0
  -- `TempDir::new`, and the drop of one, which removes the directory.
  pub temp_dir_new : System → System × Option TempDir
  pub remove_dir : TempDir → System → System
  -- `CreateOptions::new().password(password).create(dir.path().join(name))`
  pub keychain_create : List ℕ → TempDir → List ℕ → System → System × Result T.BaseError SecKeychain
  -- `keychain.set_settings(&KeychainSettings::new())`
  pub set_settings : SecKeychain → System → System × Result T.BaseError (Unit {0})
  -- `SecRandom::copy_bytes` to a buffer of so many bytes.
  pub copy_bytes : ℕ → System → System × Option (List ℕ)
  -- `import` with the items collected so far: the items after it.
  pub import_items :
      ImportOptions SecKeychain
      → SecItems T.SecCertificate T.SecIdentity SecKey
      → List ℕ
      → System
      → System × Result T.BaseError (SecItems T.SecCertificate T.SecIdentity SecKey)
  -- `Pkcs12ImportOptions`, with a key chain or without, and with a passphrase.
  pub pkcs12_import :
      Option SecKeychain
      → List ℕ
      → List ℕ
      → System
      → System × Result T.BaseError (List (ImportedIdentity T.SecCertificate T.SecIdentity))
  -- `SecIdentity::with_certificate(&[keychain], cert)`
  pub with_certificate : SecKeychain → T.SecCertificate → System → Result T.BaseError T.SecIdentity

pub record Library : Type 1 where
  pub transport : Transport
  pub open transport use *
  pub handshakes : Handshakes transport
  pub open handshakes use *
  pub keys : KeyStore transport
  pub open keys use *
