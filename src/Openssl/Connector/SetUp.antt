-- ===== src/Openssl/Connector/SetUp.antt =====
-- What `TlsConnector::new` and `TlsAcceptor::new` of src/imp/openssl.rs make of their builders.
use mathlib.Core.List.{foldl}
use rust_native_tls.Prelude.{
  Option, ◌≡◌, ◌∙◌, ap, sym, true, ◌++◌, ok, >>=-eq-ok, map_err->>=-eq-ok, ok-injective,
}
use rust_native_tls.Builder.Connector.{TlsConnectorBuilder}
use rust_native_tls.Openssl.Library.{Library}
use rust_native_tls.Openssl.Error.{normal}
use rust_native_tls.Openssl.Identity.{Identity}
use rust_native_tls.Openssl.View.{OptionLaws, ContextLaws}
use rust_native_tls.Openssl.Versions.{supported_protocols}
use rust_native_tls.Openssl.Connector.{
  Build, use_identity, use_own_store, add_roots, use_alpn, set_up,
}
use rust_native_tls.Openssl.Connector.Config.{
  Settings, chain_of, certificate_of, key_of, or_else, alpn_of, own_store, version_of,
  with_versions, with_own_store, with_alpn, with_roots, config-use_identity,
  config-supported_protocols, config-use_own_store, config-add_roots, config-use_alpn,
}
use rust_native_tls.Openssl.Trust.Android.{config-use_android, system_roots}
use rust_native_tls.Openssl.Trust.{Dir}

module _ (L : Library) where
  open L use {SslContextBuilder, X509, crypto, context}

  abbrev pub ConnectorBuilder : Type 0
  ConnectorBuilder = TlsConnectorBuilder (Identity L) X509

  module _ (O : OptionLaws crypto context) (V : ContextLaws crypto context O) where
    -- What the options of a builder make of a fresh context's settings, where Android's certificates
    -- are in `dir`.
    abbrev pub requested : Option Dir → ConnectorBuilder → Settings L → Settings L
    requested dir b s = record {
      certificate = or_else (certificate_of L b.identity) s.certificate;
      private_key = or_else (key_of L b.identity) s.private_key;
      extra_chain = s.extra_chain ++ chain_of L b.identity;
      min_proto = version_of L b.min_protocol;
      max_proto = version_of L b.max_protocol;
      disabled = s.disabled;
      store =
          foldl V.store_add
            (foldl V.store_add (own_store L b.disable_built_in_roots s.store) b.root_certificates)
            (system_roots L dir);
      alpn = or_else (alpn_of b.alpn) s.alpn;
    }

    -- Where the setting up succeeds, the context has what the builder asks for.
    pub config-set_up :
        (build : Build) (b : ConnectorBuilder) (ctx : SslContextBuilder) {y : SslContextBuilder}
        → build.have_min_max_version ≡ true
        → set_up L build b ctx ≡ ok y
        → V.config y ≡ requested build.android b (V.config ctx)
    unfolding set_up
    config-set_up build b ctx h r =
        let (ctx₁, identified, r₁) = >>=-eq-ok (use_identity L ctx b.identity) _ r in
        let (ctx₂, bounded, r₂) =
          map_err->>=-eq-ok normal
            (supported_protocols crypto context build.have_min_max_version b.min_protocol
              b.max_protocol ctx₁)
            _ r₁ in
        let (ctx₃, stored, r₃) = >>=-eq-ok (use_own_store L ctx₂ b.disable_built_in_roots) _ r₂ in
        let (ctx₄, named, r₄) =
          >>=-eq-ok (use_alpn L (add_roots L ctx₃ b.root_certificates) b.alpn) _ r₃ in
        sym (ap V.config (ok-injective r₄))
        ∙ config-use_android L O V ctx₄ build.android
        ∙ ap (with_roots L O V (system_roots L build.android)) (
            config-use_alpn L O V _ b.alpn named
            ∙ ap (with_alpn L b.alpn) (
                config-add_roots L O V ctx₃ b.root_certificates
                ∙ ap (with_roots L O V b.root_certificates) (
                    config-use_own_store L O V ctx₂ b.disable_built_in_roots stored
                    ∙ ap (with_own_store L b.disable_built_in_roots) (
                        config-supported_protocols L O V ctx₁ b.min_protocol b.max_protocol
                          (rw h at bounded)
                        ∙ ap (with_versions L b.min_protocol b.max_protocol)
                            (config-use_identity L O V ctx b.identity identified)))))
