-- ===== src/Openssl/Tests/ToySession.antt =====
-- The small library's connections: a socket is a number, and a handshake over the socket 1 is
-- interrupted, over 2 fails and over any other succeeds.
use rust_native_tls.Prelude.{
  ℕ, ◌≡◌, refl, Bool, true, false, none, some, Result, ok, err, ◌==◌, arith, if◌then◌else◌, ◌↔◌,
}
use rust_native_tls.Rfc5929.{md5, sha1}
use rust_native_tls.Openssl.Library.{Session, SslHandshakeError, failure, would_block, Library}
use rust_native_tls.Openssl.Connector.Connect.{ConfigurationLaws}
use rust_native_tls.Openssl.Stream.EndPoint.{HashLaws}
use rust_native_tls.Openssl.Tests.Toy.{Settings, crypto, context, digest_of}

pub record Configuration : Type 0 where
  pub sni : Bool
  pub hostname : Bool
  pub verifies : Bool

abbrev pub session : Session crypto context
session = record {
  SslConnector = Settings;
  SslAcceptor = Settings;
  build_connector = λ x. x;
  build_acceptor = λ x. x;
  ConnectConfiguration = Configuration;
  configure = λ x. ok (record { sni = true; hostname = true; verifies = true });
  use_server_name_indication = λ c v. record c { sni = v };
  verify_hostname = λ c v. record c { hostname = v };
  SslVerifyMode = Bool;
  verify_none = false;
  set_verify = λ c m. record c { verifies = m };
  Socket = ℕ;
  SslStream = ℕ;
  MidHandshakeSslStream = ℕ;
  SslError = ℕ;
  X509VerifyResult = ℕ;
  ErrorCode = ℕ;
  zero_return = 6;
  code_eq = λ a b. a == b;
  error_code = λ e. e;
  into_io_error = λ e. err e;
  verify_result = λ mid. 18;
  into_error = λ mid. 1;
  stack_debug = λ e. "ErrorStack";
  ssl_debug = λ e. "Error";
  verify_debug = λ v. "X509VerifyResult";
  mid_debug = λ mid. "MidHandshakeSslStream";
  stream_debug = λ s. "SslStream";
  is_server = λ s. s == 9;
  certificate = λ s. some 1;
  peer_certificate = λ s. some 3;
  pending = λ s. 0;
  selected_alpn_protocol = λ s. none;
  shutdown = λ s. (s, err 6);
  mid_get_ref = λ mid. mid;
  stream_get_ref = λ s. s;
  mid_get_mut = λ mid. (mid, λ socket. socket);
  stream_get_mut = λ s. (s, λ socket. socket);
  read = λ s buf. (s, buf, ok 0);
  write = λ s buf. (s, ok 0);
  flush = λ s. (s, ok tt);
}

abbrev pub shake : ℕ → Result (SslHandshakeError crypto context session) ℕ
shake s = if s == 1 then err (would_block s) else if s == 2 then err (failure s) else ok s

abbrev pub library : Library
library = record {
  crypto = crypto;
  context = context;
  session = session;
  handshakes = record {
    connect = λ c domain s. shake s;
    accept = λ a s. shake s;
    resume = λ mid. ok mid;
  };
}

abbrev pub configuration_laws : ConfigurationLaws library
configuration_laws = record {
  checks = λ c. record { sni = c.sni; hostname = c.hostname; mode = c.verifies };
  use_server_name_indication_lem = λ c v. refl;
  verify_hostname_lem = λ c v. refl;
  set_verify_lem = λ c m. refl;
}

pub is_md5 : (n : ℕ) → ((n == 1) ≡ true) ↔ (digest_of n ≡ some md5)
is_md5 n = ground arith

pub is_sha1 : (n : ℕ) → ((n == 2) ≡ true) ↔ (digest_of n ≡ some sha1)
is_sha1 n = ground arith

abbrev pub hash_laws : HashLaws library
hash_laws = record {
  hash_of = digest_of;
  digest_hash = λ d. d;
  nid_eq-md5 = is_md5;
  nid_eq-sha1 = is_sha1;
  digest_hash-sha256 = refl;
  digest_hash-from_nid = λ n e. e;
}
