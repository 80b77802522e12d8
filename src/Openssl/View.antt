-- ===== src/Openssl/View.antt =====
-- What src/imp/openssl.rs relies on of the documented behaviour of `SslContextBuilder`: each call
-- that succeeds sets one part of the configuration and keeps the others.
use rust_native_tls.Prelude.{
  ◌≡◌, Bool, true, false, not, ◌&&◌, ◌||◌, Option, some, List, [], ◌∷◌, ◌++◌, ok, ℕ,
}
use rust_native_tls.Protocol.{Protocol, sslv3, tlsv10, tlsv11, tlsv12, non_exhaustive}
use rust_native_tls.Openssl.Library.{Crypto, Context}

-- The options that turn a version off.
pub data Flag : Type 0 where
  flag_sslv2 flag_sslv3 flag_tlsv1 flag_tlsv1_1 flag_tlsv1_2 : Flag

abbrev pub is_flag : Flag → Flag → Bool
is_flag flag_sslv2 flag_sslv2 = true
is_flag flag_sslv3 flag_sslv3 = true
is_flag flag_tlsv1 flag_tlsv1 = true
is_flag flag_tlsv1_1 flag_tlsv1_1 = true
is_flag flag_tlsv1_2 flag_tlsv1_2 = true
is_flag _ _ = false

-- The configuration that a context holds.
pub record Config (C : Crypto) (X : Context C) : Type 0 where
  pub certificate : Option C.X509
  pub private_key : Option C.PKey
  pub extra_chain : List C.X509
  pub min_proto : Option X.SslVersion
  pub max_proto : Option X.SslVersion
  pub disabled : Flag → Bool
  pub store : X.X509Store
  pub alpn : Option (List ℕ)

-- `SslOptions` is a set of flags.
pub record OptionLaws (C : Crypto) (X : Context C) : Type 0 where
  pub has : X.SslOptions → Flag → Bool
  pub has-empty : (f : Flag) → has X.options_empty f ≡ false
  pub has-union :
      (a b : X.SslOptions) (f : Flag) → has (X.options_union a b) f ≡ (has a f || has b f)
  pub has-no_sslv2 : (f : Flag) → has X.no_sslv2 f ≡ is_flag flag_sslv2 f
  pub has-no_sslv3 : (f : Flag) → has X.no_sslv3 f ≡ is_flag flag_sslv3 f
  pub has-no_tlsv1 : (f : Flag) → has X.no_tlsv1 f ≡ is_flag flag_tlsv1 f
  pub has-no_tlsv1_1 : (f : Flag) → has X.no_tlsv1_1 f ≡ is_flag flag_tlsv1_1 f
  pub has-no_tlsv1_2 : (f : Flag) → has X.no_tlsv1_2 f ≡ is_flag flag_tlsv1_2 f

-- The versions that `SslVersion` stands for.
pub record VersionLaws (C : Crypto) (X : Context C) : Type 0 where
  pub decode : X.SslVersion → Protocol
  pub decode-ssl3 : decode X.ssl3 ≡ sslv3
  pub decode-tls1 : decode X.tls1 ≡ tlsv10
  pub decode-tls1_1 : decode X.tls1_1 ≡ tlsv11
  pub decode-tls1_2 : decode X.tls1_2 ≡ tlsv12

pub record ContextLaws (C : Crypto) (X : Context C) (O : OptionLaws C X) : Type 0 where
  pub config : X.SslContextBuilder → Config C X
  -- A store with one more certificate, where it can be added.
  pub store_add : X.X509Store → C.X509 → X.X509Store
  pub set_certificate_lem :
      (x : X.SslContextBuilder) (c : C.X509) {y : X.SslContextBuilder}
      → X.set_certificate x c ≡ ok y
      → config y ≡ record (config x) { certificate = some c }
  pub set_private_key_lem :
      (x : X.SslContextBuilder) (k : C.PKey) {y : X.SslContextBuilder}
      → X.set_private_key x k ≡ ok y
      → config y ≡ record (config x) { private_key = some k }
  pub add_extra_chain_cert_lem :
      (x : X.SslContextBuilder) (c : C.X509) {y : X.SslContextBuilder}
      → X.add_extra_chain_cert x c ≡ ok y
      → config y ≡ record (config x) { extra_chain = (config x).extra_chain ++ (c ∷ []) }
  pub set_min_proto_version_lem :
      (x : X.SslContextBuilder) (v : Option X.SslVersion) {y : X.SslContextBuilder}
      → X.set_min_proto_version x v ≡ ok y
      → config y ≡ record (config x) { min_proto = v }
  pub set_max_proto_version_lem :
      (x : X.SslContextBuilder) (v : Option X.SslVersion) {y : X.SslContextBuilder}
      → X.set_max_proto_version x v ≡ ok y
      → config y ≡ record (config x) { max_proto = v }
  pub clear_options_lem :
      (x : X.SslContextBuilder) (o : X.SslOptions)
      → config (X.clear_options x o)
        ≡ record (config x) { disabled = λ f. (config x).disabled f && not (O.has o f) }
  pub set_options_lem :
      (x : X.SslContextBuilder) (o : X.SslOptions)
      → config (X.set_options x o)
        ≡ record (config x) { disabled = λ f. (config x).disabled f || O.has o f }
  pub set_cert_store_lem :
      (x : X.SslContextBuilder) (s : X.X509Store)
      → config (X.set_cert_store x s) ≡ record (config x) { store = s }
  pub add_cert_lem :
      (x : X.SslContextBuilder) (c : C.X509)
      → config (X.add_cert x c).0 ≡ record (config x) { store = store_add (config x).store c }
  pub set_alpn_protos_lem :
      (x : X.SslContextBuilder) (w : List ℕ) {y : X.SslContextBuilder}
      → X.set_alpn_protos x w ≡ ok y
      → config y ≡ record (config x) { alpn = some w }

-- The option that turns a version off.
abbrev pub flag_of : Protocol → Flag
flag_of sslv3 = flag_sslv3
flag_of tlsv10 = flag_tlsv1
flag_of tlsv11 = flag_tlsv1_1
flag_of tlsv12 = flag_tlsv1_2
flag_of non_exhaustive = flag_sslv2
