-- ===== src/Schannel/Tests/Toy.antt =====
-- A small library in place of `schannel`, over which the theorems on src/imp/schannel.rs are tried.
-- Certificates, keys and sockets are numbers, and a store is the list of its certificates. A
-- certificate has a private key if it is greater than 10.
use rust_native_tls.Prelude.{
  ◌≡◌, ◌↔◌, ◌⊎◌, ap, sym, subst, ok-injective, refl, ℕ, Bool, true, false, Option, none, some, List,
  [], ◌∷◌, codes, Result, ok, err, os, ltb, ◌==◌, length, if◌then◌else◌,
}
use rust_native_tls.Protocol.{Protocol, sslv3, tlsv10, tlsv11, tlsv12}
use rust_native_tls.Schannel.Connector.Connect.{BuilderLaws}
use rust_native_tls.Schannel.Connector.Accepts.{Holds, Holds-cons, StoreLaws}
use rust_native_tls.Schannel.Library.{
  bits_64, Fallible, Certificates, Streams, LibraryHandshakeError, interrupted, Library,
}

abbrev pub certificates : Certificates
certificates = record {
  CertContext = ℕ;
  context_eq = λ a b. a == b;
  CertStore = List ℕ;
  width = bits_64;
  pfx_import = λ pass buf s. (buf ∷ s, ok buf);
  certs = λ store. store;
  memory_store = ok [];
  cert_new = λ bytes. ok (length bytes);
  cert_from_pem = λ text. ok (length text);
  cert_to_der = λ c. c ∷ [];
  sign_hash_algorithms = λ c. ok (codes "RSA/SHA384");
  fingerprint = λ c h. ok (c ∷ c ∷ []);
  add_cert = λ store c how. ok (c ∷ store, c);
  System = List (List ℕ);
  has_private_key = λ s c. ltb 10 c;
  CryptProv = List ℕ;
  acquire = λ name make s. if make then (name ∷ s, ok name) else (s, err (os 2));
  import_pkcs8_pem = λ container key s. (s, ok tt);
  set_key_prov_info = λ c name. ok c;
}

-- What `SchannelCred` is given, and what `tls_stream::Builder` is.
pub record Cred : Type 0 where
  pub protocols : List Protocol
  pub cert : Option ℕ

pub record Options : Type 0 where
  pub store : Option (List ℕ)
  pub domain : Option (List ℕ)
  pub sni : Bool
  pub any_hostname : Bool
  pub callback : Option (Fallible (Unit {0}) × Option (List ℕ) → Fallible (Unit {0}))
  pub alpn : List (List ℕ)

abbrev pub streams : Streams certificates
streams = record {
  Protocol = Protocol;
  ssl3 = sslv3;
  tls10 = tlsv10;
  tls11 = tlsv11;
  tls12 = tlsv12;
  CredBuilder = Cred;
  cred_builder = record { protocols = []; cert = none };
  enabled_protocols = λ b ps. record b { protocols = ps };
  cert = λ b c. record b { cert = some c };
  SchannelCred = Cred;
  acquire_cred = λ b d. ok b;
  CertValidationResult = Fallible (Unit {0}) × Option (List ℕ);
  result = λ r. r.0;
  chain = λ r. r.1;
  Builder = Options;
  builder_new = record {
    store = none;
    domain = none;
    sni = true;
    any_hostname = false;
    callback = none;
    alpn = [];
  };
  cert_store = λ b s. record b { store = some s };
  domain = λ b d. record b { domain = some d };
  use_sni = λ b v. record b { sni = v };
  accept_invalid_hostnames = λ b v. record b { any_hostname = v };
  verify_callback = λ b f. record b { callback = some f };
  request_application_protocols = λ b names. record b { alpn = names };
  Socket = ℕ;
  TlsStream = ℕ;
  MidHandshakeTlsStream = ℕ;
  get_ref = λ s. s;
  mid_get_ref = λ m. m;
  get_mut = λ s. (s, λ socket. socket);
  mid_get_mut = λ m. (m, λ socket. socket);
  io_debug = λ e. "Error";
  mid_debug = λ m. "MidHandshakeTlsStream";
  stream_debug = λ s. "TlsStream";
  get_buf = λ s. [];
  is_server = λ s. false;
  certificate = λ s. err (os 0x8009030E);
  peer_certificate = λ s. if s == 1 then err (os 0x8009030E) else ok 4;
  negotiated_application_protocol = λ s. ok none;
  shutdown = λ s. (s, ok tt);
  read = λ s buf. (s, buf, ok 0);
  write = λ s buf. (s, ok 0);
  flush = λ s. (s, ok tt);
}

abbrev pub shake : ℕ → Result (LibraryHandshakeError certificates streams) ℕ
shake s = if s == 1 then err (interrupted s) else ok s

abbrev pub library : Library
library = record {
  certificates = certificates;
  streams = streams;
  handshakes = record { connect = λ b c s. shake s; accept = λ b c s. shake s; resume = λ m. ok m };
}

abbrev pub builder_laws : BuilderLaws library
builder_laws = record {
  request = λ b. record {
    store = b.store;
    domain = b.domain;
    sni = b.sni;
    any_hostname = b.any_hostname;
    callback = b.callback;
    alpn = b.alpn;
  };
  cert_store_lem = λ b s. refl;
  domain_lem = λ b d. refl;
  use_sni_lem = λ b v. refl;
  accept_invalid_hostnames_lem = λ b v. refl;
  verify_callback_lem = λ b f. refl;
  request_application_protocols_lem = λ b names. refl;
  request-builder_new = refl;
  protocols_of = λ d. d.protocols;
  own_of = λ d. d.cert;
  protocols_of-enabled_protocols = λ b ps. refl;
  own_of-enabled_protocols = λ b ps. refl;
  protocols_of-cert = λ b c. refl;
  own_of-cert = λ b c. refl;
  own_of-cred_builder = refl;
}

added :
    (s : List ℕ) (new_cert : ℕ) {s' : List ℕ} {same : ℕ}
    → ◌≡◌ {A = Fallible (List ℕ × ℕ)} (ok (new_cert ∷ s, new_cert)) (ok (s', same))
    → (c : ℕ) → Holds library s' c ↔ (((new_cert == c) ≡ true) ⊎ Holds library s c)
added s new_cert h c =
    subst
      (λ (store : List ℕ). Holds library store c ↔ (((new_cert == c) ≡ true) ⊎ Holds library s c))
      (ap (λ (r : List ℕ × ℕ). r.0) (ok-injective h)) (Holds-cons library new_cert s c)

pub store_laws : StoreLaws library
store_laws = record {
  memory_store_lem = λ h. sym (ok-injective h);
  add_cert_lem = λ s new_cert h c. added s new_cert h c;
}
