-- ===== src/Openssl/Library.antt =====
-- What src/imp/openssl.rs uses of the crates `openssl` and `openssl-probe`: their types and
-- functions, as parameters. A method that takes `&mut self` returns the object after the call; one
-- that fails leaves none behind, unless the code goes on with it.
use Prim.Native.String.{String}
use rust_native_tls.Prelude.{ℕ, Bool, Option, List, Result, IoError}

-- Certificates, keys, digests and archives.
pub record Crypto : Type 1 where
  pub ErrorStack : Type 0
  pub X509 : Type 0
  pub PKey : Type 0
  pub Pkcs12 : Type 0
  pub x509_from_der : List ℕ → Result ErrorStack X509
  pub x509_from_pem : List ℕ → Result ErrorStack X509
  pub x509_to_der : X509 → Result ErrorStack (List ℕ)
  pub stack_from_pem : List ℕ → Result ErrorStack (List X509)
  pub private_key_from_pem : List ℕ → Result ErrorStack PKey
  pub pkcs12_from_der : List ℕ → Result ErrorStack Pkcs12
  -- The key, the leaf certificate and the stack of the others.
  pub pkcs12_parse : Pkcs12 → List ℕ → Result ErrorStack (PKey × X509 × Option (List X509))
  pub Nid : Type 0
  pub nid_eq : Nid → Nid → Bool
  pub md5 : Nid
  pub sha1 : Nid
  pub MessageDigest : Type 0
  pub sha256 : MessageDigest
  pub from_nid : Nid → Option MessageDigest
  -- `cert.signature_algorithm().object().nid()`
  pub signature_algorithm : X509 → Nid
  -- The digest of `nid.signature_algorithms()`.
  pub signature_digest : Nid → Option Nid
  pub x509_digest : X509 → MessageDigest → Result ErrorStack (List ℕ)

-- `SslContextBuilder` and what is built from it.
pub record Context (C : Crypto) : Type 1 where
  pub SslContextBuilder : Type 0
  pub SslVersion : Type 0
  pub ssl3 : SslVersion
  pub tls1 : SslVersion
  pub tls1_1 : SslVersion
  pub tls1_2 : SslVersion
  pub SslOptions : Type 0
  pub options_empty : SslOptions
  pub options_union : SslOptions → SslOptions → SslOptions
  pub no_sslv2 : SslOptions
  pub no_sslv3 : SslOptions
  pub no_tlsv1 : SslOptions
  pub no_tlsv1_1 : SslOptions
  pub no_tlsv1_2 : SslOptions
  pub X509Store : Type 0
  pub X509StoreBuilder : Type 0
  -- The state of the process's environment, which says where the system's roots are.
  pub Env : Type 0
  pub init_ssl_cert_env_vars : Env → Env
  -- `SslConnector::builder(SslMethod::tls())`
  pub connector_builder : Env → Result C.ErrorStack SslContextBuilder
  -- `SslAcceptor::mozilla_intermediate(SslMethod::tls())`
  pub mozilla_intermediate : Result C.ErrorStack SslContextBuilder
  pub set_certificate : SslContextBuilder → C.X509 → Result C.ErrorStack SslContextBuilder
  pub set_private_key : SslContextBuilder → C.PKey → Result C.ErrorStack SslContextBuilder
  pub add_extra_chain_cert : SslContextBuilder → C.X509 → Result C.ErrorStack SslContextBuilder
  pub set_min_proto_version :
      SslContextBuilder → Option SslVersion → Result C.ErrorStack SslContextBuilder
  pub set_max_proto_version :
      SslContextBuilder → Option SslVersion → Result C.ErrorStack SslContextBuilder
  pub clear_options : SslContextBuilder → SslOptions → SslContextBuilder
  pub set_options : SslContextBuilder → SslOptions → SslContextBuilder
  pub store_builder_new : Result C.ErrorStack X509StoreBuilder
  pub store_build : X509StoreBuilder → X509Store
  pub set_cert_store : SslContextBuilder → X509Store → SslContextBuilder
  -- `cert_store_mut().add_cert(cert)`, after which the code goes on in either case.
  pub add_cert : SslContextBuilder → C.X509 → SslContextBuilder × Result C.ErrorStack (Unit {0})
  pub set_alpn_protos : SslContextBuilder → List ℕ → Result C.ErrorStack SslContextBuilder

-- Connections over one type of inner stream.
pub record Session (C : Crypto) (X : Context C) : Type 1 where
  pub SslConnector : Type 0
  pub SslAcceptor : Type 0
  pub build_connector : X.SslContextBuilder → SslConnector
  pub build_acceptor : X.SslContextBuilder → SslAcceptor
  pub ConnectConfiguration : Type 0
  pub configure : SslConnector → Result C.ErrorStack ConnectConfiguration
  pub use_server_name_indication : ConnectConfiguration → Bool → ConnectConfiguration
  pub verify_hostname : ConnectConfiguration → Bool → ConnectConfiguration
  pub SslVerifyMode : Type 0
  pub verify_none : SslVerifyMode
  pub set_verify : ConnectConfiguration → SslVerifyMode → ConnectConfiguration
  -- The inner stream, and the streams around it.
  pub Socket : Type 0
  pub SslStream : Type 0
  pub MidHandshakeSslStream : Type 0
  pub SslError : Type 0
  pub X509VerifyResult : Type 0
  pub ErrorCode : Type 0
  pub zero_return : ErrorCode
  pub code_eq : ErrorCode → ErrorCode → Bool
  pub error_code : SslError → ErrorCode
  pub into_io_error : SslError → Result SslError (IoError SslError)
  -- `e.ssl().verify_result()` and `e.into_error()`
  pub verify_result : MidHandshakeSslStream → X509VerifyResult
  pub into_error : MidHandshakeSslStream → SslError
  -- `{:?}` of the library's types.
  pub stack_debug : C.ErrorStack → String
  pub ssl_debug : SslError → String
  pub verify_debug : X509VerifyResult → String
  pub mid_debug : MidHandshakeSslStream → String
  pub stream_debug : SslStream → String
  -- The stream's side of a connection.
  pub is_server : SslStream → Bool
  pub certificate : SslStream → Option C.X509
  pub peer_certificate : SslStream → Option C.X509
  pub pending : SslStream → ℕ
  pub selected_alpn_protocol : SslStream → Option (List ℕ)
  pub shutdown : SslStream → SslStream × Result SslError (Unit {0})
  pub mid_get_ref : MidHandshakeSslStream → Socket
  pub stream_get_ref : SslStream → Socket
  -- A borrow of the inner stream: what it is, and the whole once the borrower has changed it.
  pub mid_get_mut : MidHandshakeSslStream → Socket × (Socket → MidHandshakeSslStream)
  pub stream_get_mut : SslStream → Socket × (Socket → SslStream)
  -- `read` and `write` of the stream, with the buffer after the call and the count.
  pub read : SslStream → List ℕ → SslStream × List ℕ × Result (IoError SslError) ℕ
  pub write : SslStream → List ℕ → SslStream × Result (IoError SslError) ℕ
  pub flush : SslStream → SslStream × Result (IoError SslError) (Unit {0})

-- `ssl::HandshakeError`
pub data SslHandshakeError (C : Crypto) (X : Context C) (S : Session C X) : Type 0 where
  setup_failure : C.ErrorStack → SslHandshakeError C X S
  failure : S.MidHandshakeSslStream → SslHandshakeError C X S
  would_block : S.MidHandshakeSslStream → SslHandshakeError C X S

-- The functions that perform a handshake.
pub record Handshakes (C : Crypto) (X : Context C) (S : Session C X) : Type 0 where
  pub connect :
      S.ConnectConfiguration → List ℕ → S.Socket → Result (SslHandshakeError C X S) S.SslStream
  pub accept : S.SslAcceptor → S.Socket → Result (SslHandshakeError C X S) S.SslStream
  pub resume : S.MidHandshakeSslStream → Result (SslHandshakeError C X S) S.SslStream

-- Both crates, over one type of inner stream.
pub record Library : Type 1 where
  pub crypto : Crypto
  pub open crypto use *
  pub context : Context crypto
  pub open context use *
  pub session : Session crypto context
  pub open session use *
  pub handshakes : Handshakes crypto context session
  pub open handshakes use *
