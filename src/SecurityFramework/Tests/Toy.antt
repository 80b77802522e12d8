-- ===== src/SecurityFramework/Tests/Toy.antt =====
-- A small library in place of `security-framework`. Certificates, identities and sockets are numbers,
-- and the certificate of an identity is one greater. The handshake over socket 1 is interrupted
-- once. The system is its temporary directories, and the random bytes are all the same.
use rust_native_tls.Prelude.{
  ok-injective, ℕ, zero, suc, ◌+◌, ◌≡◌, refl, ap, sym, subst, ◌∙◌, Bool, true, false, Option, none,
  some, List, [], ◌∷◌, ◌++◌, All, length, codes, starts_with, arith, Result, ok, err, ◌==◌,
  if◌then◌else◌,
}
use rust_native_tls.Protocol.{Protocol, sslv3, tlsv10, tlsv11, tlsv12}
use rust_native_tls.SecurityFramework.Library.{
  section, string, SecItems, KeyStore, Transport, LibraryHandshakeError, interrupted, Library,
}
use rust_native_tls.SecurityFramework.Identity.{pkcs8_guard}
use rust_native_tls.SecurityFramework.Identity.Password.{IsByte, RandomLaws}
use rust_native_tls.SecurityFramework.Directories.{DirLaws}
use rust_native_tls.SecurityFramework.Connector.Request.{ClientLaws}
use rust_native_tls.SecurityFramework.Connector.Serve.{Settings, ServerLaws}

pub record Options : Type 0 where
  pub min : Option Protocol
  pub max : Option Protocol
  pub identity : Option (ℕ × List ℕ)
  pub anchors : List ℕ
  pub sni : Bool
  pub any_hostname : Bool
  pub any_certificate : Bool
  pub anchors_only : Bool
  pub alpn : List (List ℕ)

pub record ServerOptions : Type 0 where
  pub min : Option Protocol
  pub max : Option Protocol
  pub own : Option (ℕ × List ℕ)

abbrev pub transport : Transport
transport = record {
  BaseError = ℕ;
  SecCertificate = ℕ;
  SecIdentity = ℕ;
  identity_certificate = λ i. ok (i + 1);
  SslProtocol = Protocol;
  ssl3 = sslv3;
  tls1 = tlsv10;
  tls11 = tlsv11;
  tls12 = tlsv12;
  ClientBuilder = Options;
  client_builder_new = record {
    min = none;
    max = none;
    identity = none;
    anchors = [];
    sni = true;
    any_hostname = false;
    any_certificate = false;
    anchors_only = false;
    alpn = [];
  };
  protocol_min = λ b v. record b { min = some v };
  protocol_max = λ b v. record b { max = some v };
  identity = λ b i chain. record b { identity = some (i, chain) };
  anchor_certificates = λ b certs. record b { anchors = certs };
  use_sni = λ b v. record b { sni = v };
  danger_accept_invalid_hostnames = λ b v. record b { any_hostname = v };
  danger_accept_invalid_certs = λ b v. record b { any_certificate = v };
  trust_anchor_certificates_only = λ b v. record b { anchors_only = v };
  alpn_protocols = λ b names. record b { alpn = names };
  SslContext = ServerOptions;
  context_new = ok (record { min = none; max = none; own = none });
  set_protocol_version_min = λ c v. ok (record c { min = some v });
  set_protocol_version_max = λ c v. ok (record c { max = some v });
  set_certificate = λ c i chain. ok (record c { own = some (i, chain) });
  Socket = ℕ;
  SslStream = ℕ;
  MidHandshakeSslStream = ℕ;
  MidHandshakeClientBuilder = ℕ;
  from_code = λ c. c;
  code = λ e. e;
  err_sec_param = 50;
  err_sec_io = 36;
  StreamError = ℕ;
  sec_certificate_from_der = λ der. err 50;
  cert_to_der = λ c. c ∷ [];
  server_get_ref = λ mid. mid;
  client_get_ref = λ mid. mid;
  get_ref = λ s. s;
  server_get_mut = λ mid. (mid, λ socket. socket);
  client_get_mut = λ mid. (mid, λ socket. socket);
  get_mut = λ s. (s, λ socket. socket);
  base_debug = λ e. "Error";
  server_debug = λ mid. "MidHandshakeSslStream";
  client_debug = λ mid. "MidHandshakeClientBuilder";
  stream_debug = λ s. "SslStream";
  buffered_read_size = λ s. ok 0;
  SecTrust = ℕ;
  peer_trust2 = λ s. ok (some s);
  evaluate = λ t. ok tt;
  certificate_at_index = λ t i. some t;
  alpn_protocols_of = λ s. if s == 3 then ok ((104 ∷ 50 ∷ []) ∷ []) else err 50;
  CertificateProperties = ℕ;
  Property = ℕ;
  properties = λ c. ok c;
  signature_algorithm = λ p. some p;
  property_get =
      λ p. if p == 9 then string (codes "1.2.840.113549.1.1.11") else section (8 ∷ 9 ∷ []);
  label = λ p. if p == 9 then codes "Algorithm" else codes "Parameters";
  cc_sha224 = λ bytes n buf. bytes ++ buf;
  cc_sha256 = λ bytes n buf. bytes ++ n ∷ buf;
  cc_sha384 = λ bytes n buf. bytes ++ buf;
  cc_sha512 = λ bytes n buf. bytes ++ buf;
  close = λ s. (s, ok tt);
  read = λ s buf. (s, buf, ok 0);
  write = λ s buf. (s, ok 0);
  flush = λ s. (s, ok tt);
}

abbrev pub shake : ℕ → Result (LibraryHandshakeError transport ℕ) ℕ
shake s = if s == 1 then err (interrupted s) else ok s

abbrev rest_of : List ℕ → List ℕ
rest_of [] = []
rest_of (x ∷ xs) = xs

abbrev random : ℕ → List ℕ
random zero = []
random (suc n) = 171 ∷ random n

abbrev Items : Type 0
Items = SecItems ℕ ℕ ℕ

-- A key, or certificates.
abbrev add_items : Items → List ℕ → Items
add_items items bytes =
    if starts_with bytes pkcs8_guard
    then record items { keys = 1 ∷ items.keys }
    else record items { certificates = items.certificates ++ bytes }

abbrev keys : KeyStore transport
keys = record {
  System = List ℕ;
  TempDir = ℕ;
  SecKeychain = ℕ;
  SecKey = ℕ;
  temp_dir_new = λ s. (length s ∷ s, some (length s));
  remove_dir = λ d s. rest_of s;
  keychain_create = λ password d name s. (s, ok d);
  set_settings = λ k s. (s, ok tt);
  copy_bytes = λ n s. (s, some (random n));
  import_items = λ options items bytes s. (s, ok (add_items items bytes));
  pkcs12_import =
      λ k pass buf s. (s, ok (record { identity = some 4; cert_chain = some buf } ∷ []));
  with_certificate = λ k cert s. ok cert;
}

abbrev pub library : Library
library = record {
  transport = transport;
  handshakes = record {
    client_handshake = λ b domain s. shake s;
    server_handshake = λ c s. shake s;
    resume_client = λ m. ok m;
    resume_server = λ m. ok m;
  };
  keys = keys;
}

abbrev pub client_laws : ClientLaws library
client_laws = record {
  request = λ b. record {
    min = b.min;
    max = b.max;
    identity = b.identity;
    anchors = b.anchors;
    sni = b.sni;
    any_hostname = b.any_hostname;
    any_certificate = b.any_certificate;
    anchors_only = b.anchors_only;
    alpn = b.alpn;
  };
  request-client_builder_new = refl;
  protocol_min_lem = λ b v. refl;
  protocol_max_lem = λ b v. refl;
  identity_lem = λ b i chain. refl;
  anchor_certificates_lem = λ b certs. refl;
  use_sni_lem = λ b v. refl;
  danger_accept_invalid_hostnames_lem = λ b v. refl;
  danger_accept_invalid_certs_lem = λ b v. refl;
  trust_anchor_certificates_only_lem = λ b v. refl;
  alpn_protocols_lem = λ b names. refl;
}

abbrev settings_of : ServerOptions → Settings library
settings_of c = record { min = c.min; max = c.max; own = c.own }

abbrev pub server_laws : ServerLaws library
server_laws = record {
  settings = settings_of;
  context_new_lem = λ h. ap settings_of (sym (ok-injective h));
  set_protocol_version_min_lem = λ c v h. ap settings_of (sym (ok-injective h));
  set_protocol_version_max_lem = λ c v h. ap settings_of (sym (ok-injective h));
  set_certificate_lem = λ c i chain h. ap settings_of (sym (ok-injective h));
}

abbrev pub dir_laws : DirLaws library
dir_laws = record {
  dirs = λ s. s;
  temp_dir_new_some = λ s h. cc h;
  temp_dir_new_none = λ s h. cc h;
  remove_dir_lem = λ d s h. ap rest_of h;
  keychain_create_lem = λ password d name s. refl;
  set_settings_lem = λ k s. refl;
  copy_bytes_lem = λ n s. refl;
  import_items_lem = λ o items bytes s. refl;
  pkcs12_import_lem = λ k pass buf s. refl;
}

length-random : (n : ℕ) → length (random n) ≡ n
length-random zero = refl
length-random (suc n) = omega (arith, length-random n)

random-IsByte : (n : ℕ) → All IsByte (random n)
random-IsByte zero = tt
random-IsByte (suc n) = (omega arith, random-IsByte n)

made :
    (n : ℕ) {s s' : List ℕ} {bytes : List ℕ}
    → ◌≡◌ {A = List ℕ × Option (List ℕ)} (s, some (random n)) (s', some bytes)
    → random n ≡ bytes
made n h = cc h

pub random_laws : RandomLaws library
random_laws = record {
  copy_bytes_length = λ n s h. ap length (sym (made n h)) ∙ length-random n;
  copy_bytes_range = λ n s h. subst (All IsByte) (made n h) (random-IsByte n);
}
