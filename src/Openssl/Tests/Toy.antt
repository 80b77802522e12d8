-- ===== src/Openssl/Tests/Toy.antt =====
-- A small library in place of `openssl`, over which the theorems on src/imp/openssl.rs are tried.
-- Certificates and keys are numbers, a store and a text are lists of them, and no call fails.
use mathlib.Core.List.{reverse}
use rust_native_tls.Prelude.{
  ℕ, ◌+◌, ◌≡◌, refl, ap, sym, Bool, false, not, ◌&&◌, ◌||◌, Option, none, some, List, [], ◌∷◌, ◌++◌,
  Result, ok, ok-injective, ◌==◌, length, if◌then◌else◌,
}
use rust_native_tls.Protocol.{Protocol, sslv3, tlsv10, tlsv11, tlsv12}
use rust_native_tls.Rfc5929.{Hash, md5, sha1, sha256, sha384}
use rust_native_tls.Openssl.Library.{Crypto, Context}
use rust_native_tls.Openssl.View.{
  Flag, flag_sslv2, flag_sslv3, flag_tlsv1, flag_tlsv1_1, flag_tlsv1_2, is_flag, Config, OptionLaws,
  VersionLaws, ContextLaws,
}

abbrev pub digest_of : ℕ → Option Hash
digest_of n =
    if n == 1 then some md5 else if n == 2 then some sha1 else if n == 3 then some sha384 else none

abbrev pub crypto : Crypto
crypto = record {
  ErrorStack = ℕ;
  X509 = ℕ;
  PKey = ℕ;
  Pkcs12 = List ℕ;
  x509_from_der = λ bytes. ok (length bytes);
  x509_from_pem = λ bytes. ok (length bytes);
  x509_to_der = λ c. ok (c ∷ []);
  stack_from_pem = λ bytes. ok bytes;
  private_key_from_pem = λ bytes. ok (length bytes);
  pkcs12_from_der = λ bytes. ok bytes;
  pkcs12_parse = λ archive pass. ok (1, 2, some (reverse archive));
  Nid = ℕ;
  nid_eq = λ a b. a == b;
  md5 = 1;
  sha1 = 2;
  MessageDigest = Hash;
  sha256 = sha256;
  from_nid = digest_of;
  signature_algorithm = λ c. c;
  signature_digest = λ n. some n;
  x509_digest = λ c h. ok (c ∷ c ∷ []);
}

pub record Settings : Type 0 where
  pub certificate : Option ℕ
  pub private_key : Option ℕ
  pub extra_chain : List ℕ
  pub min_proto : Option Protocol
  pub max_proto : Option Protocol
  pub disabled : Flag → Bool
  pub store : List ℕ
  pub alpn : Option (List ℕ)

abbrev pub fresh : Settings
fresh = record {
  certificate = none;
  private_key = none;
  extra_chain = [];
  min_proto = none;
  max_proto = none;
  disabled = is_flag flag_sslv3;
  store = 7 ∷ [];
  alpn = none;
}

abbrev pub context : Context crypto
context = record {
  SslContextBuilder = Settings;
  SslVersion = Protocol;
  ssl3 = sslv3;
  tls1 = tlsv10;
  tls1_1 = tlsv11;
  tls1_2 = tlsv12;
  SslOptions = Flag → Bool;
  options_empty = λ f. false;
  options_union = λ a b f. a f || b f;
  no_sslv2 = is_flag flag_sslv2;
  no_sslv3 = is_flag flag_sslv3;
  no_tlsv1 = is_flag flag_tlsv1;
  no_tlsv1_1 = is_flag flag_tlsv1_1;
  no_tlsv1_2 = is_flag flag_tlsv1_2;
  X509Store = List ℕ;
  X509StoreBuilder = List ℕ;
  Env = ℕ;
  init_ssl_cert_env_vars = λ e. e + 1;
  connector_builder = λ e. ok fresh;
  mozilla_intermediate = ok fresh;
  set_certificate = λ x c. ok (record x { certificate = some c });
  set_private_key = λ x k. ok (record x { private_key = some k });
  add_extra_chain_cert = λ x c. ok (record x { extra_chain = x.extra_chain ++ (c ∷ []) });
  set_min_proto_version = λ x v. ok (record x { min_proto = v });
  set_max_proto_version = λ x v. ok (record x { max_proto = v });
  clear_options = λ x o. record x { disabled = λ f. x.disabled f && not (o f) };
  set_options = λ x o. record x { disabled = λ f. x.disabled f || o f };
  store_builder_new = ok [];
  store_build = λ b. b;
  set_cert_store = λ x s. record x { store = s };
  add_cert = λ x c. (record x { store = x.store ++ (c ∷ []) }, ok tt);
  set_alpn_protos = λ x w. ok (record x { alpn = some w });
}

abbrev pub options : OptionLaws crypto context
options = record {
  has = λ o f. o f;
  has-empty = λ f. refl;
  has-union = λ a b f. refl;
  has-no_sslv2 = λ f. refl;
  has-no_sslv3 = λ f. refl;
  has-no_tlsv1 = λ f. refl;
  has-no_tlsv1_1 = λ f. refl;
  has-no_tlsv1_2 = λ f. refl;
}

abbrev pub versions : VersionLaws crypto context
versions = record {
  decode = λ v. v;
  decode-ssl3 = refl;
  decode-tls1 = refl;
  decode-tls1_1 = refl;
  decode-tls1_2 = refl;
}

abbrev pub config : Settings → Config crypto context
config s = record {
  certificate = s.certificate;
  private_key = s.private_key;
  extra_chain = s.extra_chain;
  min_proto = s.min_proto;
  max_proto = s.max_proto;
  disabled = s.disabled;
  store = s.store;
  alpn = s.alpn;
}

pub config_of_ok :
    {x y : Settings} → ◌≡◌ {A = Result ℕ Settings} (ok x) (ok y) → config y ≡ config x
config_of_ok h = sym (ap config (ok-injective h))

abbrev pub laws : ContextLaws crypto context options
laws = record {
  config = config;
  store_add = λ s c. s ++ (c ∷ []);
  set_certificate_lem = λ x c h. config_of_ok h;
  set_private_key_lem = λ x k h. config_of_ok h;
  add_extra_chain_cert_lem = λ x c h. config_of_ok h;
  set_min_proto_version_lem = λ x v h. config_of_ok h;
  set_max_proto_version_lem = λ x v h. config_of_ok h;
  clear_options_lem = λ x o. refl;
  set_options_lem = λ x o. refl;
  set_cert_store_lem = λ x s. refl;
  add_cert_lem = λ x c. refl;
  set_alpn_protos_lem = λ x w h. config_of_ok h;
}
