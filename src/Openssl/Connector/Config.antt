-- ===== src/Openssl/Connector/Config.antt =====
-- The configuration of the contexts that src/imp/openssl.rs builds.
use mathlib.Core.List.{foldl}
use rust_native_tls.Prelude.{
  ℕ, ◌≡◌, refl, ◌∙◌, ap, Bool, true, false, Option, none, some, List, [], ◌∷◌, ◌++◌, Result, ok,
  err, panic, >>=-eq-ok, map_err-eq-ok, ok-injective, sym, map_err->>=-eq-ok, append-nil,
  append_assoc, arith,
}
use rust_native_tls.Protocol.{Protocol, sslv3, tlsv10, tlsv11, tlsv12, non_exhaustive}
use rust_native_tls.Openssl.Library.{Library}
use rust_native_tls.Openssl.Error.{normal}
use rust_native_tls.Openssl.Identity.{Identity}
use rust_native_tls.Openssl.Alpn.{alpn_wire_format}
use rust_native_tls.Openssl.View.{Config, OptionLaws, ContextLaws}
use rust_native_tls.Openssl.Versions.{map_cvt, supported_protocols, supported_protocols_min_max}
use rust_native_tls.Openssl.Connector.{add_chain, use_identity, use_own_store, add_roots, use_alpn}

abbrev pub or_else : {A : Type 0} → Option A → Option A → Option A
or_else none b = b
or_else (some a) b = some a

abbrev pub alpn_of : List (List ℕ) → Option (List ℕ)
alpn_of [] = none
alpn_of (name ∷ names) = some (alpn_wire_format (name ∷ names))

module _ (L : Library) where
  open L use {SslContextBuilder, X509, crypto, context}

  abbrev pub Settings : Type 0
  Settings = Config crypto context

  -- The library's name of a version.
  abbrev pub version_of : Option Protocol → Option L.SslVersion
  version_of none = none
  version_of (some sslv3) = some L.ssl3
  version_of (some tlsv10) = some L.tls1
  version_of (some tlsv11) = some L.tls1_1
  version_of (some tlsv12) = some L.tls1_2
  version_of (some non_exhaustive) = none

  abbrev pub with_chain : List X509 → Settings → Settings
  with_chain chain s = record s { extra_chain = s.extra_chain ++ chain }

  abbrev pub chain_of : Option (Identity L) → List X509
  chain_of none = []
  chain_of (some i) = i.chain

  abbrev pub certificate_of : Option (Identity L) → Option X509
  certificate_of none = none
  certificate_of (some i) = some i.cert

  abbrev pub key_of : Option (Identity L) → Option L.PKey
  key_of none = none
  key_of (some i) = some i.pkey

  abbrev pub built_store : Result L.ErrorStack L.X509StoreBuilder → L.X509Store → L.X509Store
  built_store (ok builder) s = L.store_build builder
  built_store (err e) s = s
  built_store panic s = s

  abbrev pub own_store : Bool → L.X509Store → L.X509Store
  own_store false s = s
  own_store true s = built_store L.store_builder_new s

  abbrev pub with_identity : Option (Identity L) → Settings → Settings
  with_identity i s = record s {
    certificate = or_else (certificate_of i) s.certificate;
    private_key = or_else (key_of i) s.private_key;
    extra_chain = s.extra_chain ++ chain_of i;
  }

  abbrev pub with_versions : Option Protocol → Option Protocol → Settings → Settings
  with_versions min max s = record s { min_proto = version_of min; max_proto = version_of max }

  abbrev pub with_own_store : Bool → Settings → Settings
  with_own_store own s = record s { store = own_store own s.store }

  abbrev pub with_alpn : List (List ℕ) → Settings → Settings
  with_alpn names s = record s { alpn = or_else (alpn_of names) s.alpn }

  module _ (O : OptionLaws crypto context) (V : ContextLaws crypto context O) where
    abbrev pub with_roots : List X509 → Settings → Settings
    with_roots certs s = record s { store = foldl V.store_add s.store certs }

    pub config-add_chain :
        (ctx : SslContextBuilder) (chain : List X509) {y : SslContextBuilder}
        → add_chain L ctx chain ≡ ok y
        → V.config y ≡ with_chain chain (V.config ctx)
    unfolding add_chain
    config-add_chain ctx [] h = sym (ap V.config (ok-injective h)) ∙ rw append-nil
    config-add_chain ctx (cert ∷ chain) h =
        let (ctx₁, added, rest) = map_err->>=-eq-ok normal (L.add_extra_chain_cert ctx cert) _ h in
        config-add_chain ctx₁ chain rest
        ∙ rw (V.add_extra_chain_cert_lem ctx cert added, append_assoc)

    pub config-use_identity :
        (ctx : SslContextBuilder) (identity : Option (Identity L)) {y : SslContextBuilder}
        → use_identity L ctx identity ≡ ok y
        → V.config y ≡ with_identity identity (V.config ctx)
    unfolding use_identity
    config-use_identity ctx none h = sym (ap V.config (ok-injective h)) ∙ rw append-nil
    config-use_identity ctx (some i) h =
        let (ctx₁, certified, h₁) = map_err->>=-eq-ok normal (L.set_certificate ctx i.cert) _ h in
        let (ctx₂, keyed, h₂) = map_err->>=-eq-ok normal (L.set_private_key ctx₁ i.pkey) _ h₁ in
        config-add_chain ctx₂ i.chain h₂
        ∙ rw (V.set_private_key_lem ctx₁ i.pkey keyed, V.set_certificate_lem ctx i.cert certified)

    version_of-map_cvt :
        (p : Option Protocol) (v : Option L.SslVersion)
        → map_cvt crypto context p ≡ ok v
        → v ≡ version_of p
    unfolding map_cvt
    version_of-map_cvt none v h = ground arith
    version_of-map_cvt (some non_exhaustive) v h = cc
    version_of-map_cvt (some p) v h = ground arith

    pub config-supported_protocols :
        (ctx : SslContextBuilder) (min max : Option Protocol) {y : SslContextBuilder}
        → supported_protocols crypto context true min max ctx ≡ ok y
        → V.config y ≡ with_versions min max (V.config ctx)
    unfolding supported_protocols supported_protocols_min_max
    config-supported_protocols ctx min max h =
        let (low, l, h₁) = >>=-eq-ok (map_cvt crypto context min) _ h in
        let (ctx₁, set_low, h₂) = >>=-eq-ok (L.set_min_proto_version ctx low) _ h₁ in
        let (high, u, set_high) = >>=-eq-ok (map_cvt crypto context max) _ h₂ in
        V.set_max_proto_version_lem ctx₁ high set_high
        ∙ rw (
          V.set_min_proto_version_lem ctx low set_low,
          version_of-map_cvt min low l,
          version_of-map_cvt max high u,
        )

    pub config-use_own_store :
        (ctx : SslContextBuilder) (own : Bool) {y : SslContextBuilder}
        → use_own_store L ctx own ≡ ok y
        → V.config y ≡ with_own_store own (V.config ctx)
    unfolding use_own_store
    config-use_own_store ctx false h = sym (ap V.config (ok-injective h))
    config-use_own_store ctx true h =
        let (builder, made, h₁) = map_err->>=-eq-ok normal L.store_builder_new _ h in
        sym (ap V.config (ok-injective h₁))
        ∙ V.set_cert_store_lem ctx (L.store_build builder)
        ∙ sym (
            ap
              (λ (r : Result L.ErrorStack L.X509StoreBuilder). record (V.config ctx) {
                store = built_store r (V.config ctx).store;
              })
              made)

    pub config-add_roots :
        (ctx : SslContextBuilder) (certs : List X509)
        → V.config (add_roots L ctx certs) ≡ with_roots certs (V.config ctx)
    unfolding add_roots
    config-add_roots ctx [] = refl
    config-add_roots ctx (cert ∷ certs) =
        config-add_roots (L.add_cert ctx cert).0 certs ∙ rw (V.add_cert_lem ctx cert)

    pub config-use_alpn :
        (ctx : SslContextBuilder) (names : List (List ℕ)) {y : SslContextBuilder}
        → use_alpn L ctx names ≡ ok y
        → V.config y ≡ with_alpn names (V.config ctx)
    unfolding use_alpn
    config-use_alpn ctx [] h = sym (ap V.config (ok-injective h))
    config-use_alpn ctx (name ∷ names) h = V.set_alpn_protos_lem ctx _ (map_err-eq-ok normal _ h)
