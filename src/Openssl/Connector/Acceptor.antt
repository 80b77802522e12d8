-- ===== src/Openssl/Connector/Acceptor.antt =====
-- `TlsAcceptor::new` of src/imp/openssl.rs, from a builder and from a PKCS#12 archive.
use mathlib.Core.List.{reverse}
use rust_native_tls.Prelude.{
  refl, inl, inr, ◌⊎◌, Result-cases, ℕ, ◌≡◌, ◌∙◌, true, none, some, List, ◌++◌, ok, ◌>>=◌,
  >>=-eq-ok, map_err-eq-ok, map_err->>=-eq-ok,
}
use rust_native_tls.Builder.Acceptor.{TlsAcceptorBuilder, acceptor_builder}
use rust_native_tls.Openssl.Library.{Library}
use rust_native_tls.Openssl.Error.{normal}
use rust_native_tls.Openssl.Identity.{Identity, Fallible, from_pkcs12}
use rust_native_tls.Openssl.Identity.Parse.{from_pkcs12-chain}
use rust_native_tls.Openssl.View.{OptionLaws, ContextLaws}
use rust_native_tls.Openssl.Versions.{supported_protocols}
use rust_native_tls.Openssl.Connector.{Build, add_chain, acceptor_set_up, acceptor_new}
use rust_native_tls.Openssl.Connector.Config.{
  Settings, version_of, config-add_chain, config-supported_protocols,
}
use rust_native_tls.Openssl.Connector.Calls.{
  IsFailure, Breaks, Breaks-bind, make_all, make_all-outcome, acceptor_calls,
}
use rust_native_tls.Openssl.Connector.Calls.Order.{acceptor_set_up-make_all}

module _ (L : Library) where
  open L use {SslContextBuilder, X509, crypto, context}

  -- What a builder makes of a fresh context's settings.
  abbrev pub served : TlsAcceptorBuilder (Identity L) → Settings L → Settings L
  served b s = record s {
    certificate = some b.identity.cert;
    private_key = some b.identity.pkey;
    extra_chain = s.extra_chain ++ b.identity.chain;
    min_proto = version_of L b.min_protocol;
    max_proto = version_of L b.max_protocol;
  }

  module _ (O : OptionLaws crypto context) (V : ContextLaws crypto context O) where
    pub config-acceptor_set_up :
        (build : Build) (b : TlsAcceptorBuilder (Identity L)) (ctx : SslContextBuilder)
        {y : SslContextBuilder}
        → build.have_min_max_version ≡ true
        → acceptor_set_up L build b ctx ≡ ok y
        → V.config y ≡ served b (V.config ctx)
    unfolding acceptor_set_up
    config-acceptor_set_up build b ctx h r =
        let (ctx₁, keyed, r₁) =
          map_err->>=-eq-ok normal (L.set_private_key ctx b.identity.pkey) _ r in
        let (ctx₂, certified, r₂) =
          map_err->>=-eq-ok normal (L.set_certificate ctx₁ b.identity.cert) _ r₁ in
        let (ctx₃, chained, r₃) = >>=-eq-ok (add_chain L ctx₂ b.identity.chain) _ r₂ in
        let bounded =
          map_err-eq-ok normal
            (supported_protocols crypto context build.have_min_max_version b.min_protocol
              b.max_protocol ctx₃)
            r₃ in
        config-supported_protocols L O V ctx₃ b.min_protocol b.max_protocol (rw h at bounded)
        ∙ rw (
          config-add_chain L O V ctx₂ b.identity.chain chained,
          V.set_certificate_lem ctx₁ b.identity.cert certified,
          V.set_private_key_lem ctx b.identity.pkey keyed,
        )

    -- The settings of a fresh context `s` with an identity, for TLS 1.0 and later.
    abbrev pub own_settings : Settings L → X509 → L.PKey → List X509 → Settings L
    own_settings s leaf key chain = record s {
      certificate = some leaf;
      private_key = some key;
      extra_chain = s.extra_chain ++ chain;
      min_proto = some L.tls1;
      max_proto = none;
    }

    -- The result is an acceptor of the context that the calls of a fresh builder make of `ctx`, which
    -- serves this identity, or the failure of the first of the calls that fails.
    abbrev pub IsServing : Identity L → SslContextBuilder → Fallible L L.SslAcceptor → Type 0
    IsServing i ctx r =
        let calls = acceptor_calls L (acceptor_builder i) in
        ((y : SslContextBuilder) × (make_all L calls ctx ≡ ok y)
          × (V.config y ≡ own_settings (V.config ctx) i.cert i.pkey i.chain)
          × (r ≡ ok (L.build_acceptor y)))
        ⊎ Breaks L calls ctx r

    -- Of a build with `have_min_max_version`, for a PKCS#12 archive that the library parses, which
    -- gives the certificates other than the leaf last one first: what a fresh builder with the
    -- archive's identity makes, whatever the library does with its contexts. Where the library gives
    -- no context of its intermediate profile, the result is that failure. Else the builder's calls
    -- are made on that context, in the order of the source. Where each succeeds, the acceptor serves
    -- the archive's key and leaf, with the archive's other certificates after those of the profile,
    -- in the archive's order. The minimum version is TLS 1.0, there is no maximum, and all other
    -- settings are the profile's. Where a call fails, the result is the failure of the first such.
    pub acceptor_new-from_pkcs12 :
        (build : Build) (buf pass : List ℕ) (pkcs12 : L.Pkcs12) (pkey : L.PKey) (cert : X509)
        (certs : List X509)
        → build.have_min_max_version ≡ true
        → L.pkcs12_from_der buf ≡ ok pkcs12
        → L.pkcs12_parse pkcs12 pass ≡ ok (pkey, cert, some (reverse certs))
        → IsFailure L L.mozilla_intermediate
            (from_pkcs12 L buf pass >>= λ i. acceptor_new L build (acceptor_builder i))
          ⊎ ((ctx : SslContextBuilder) × (L.mozilla_intermediate ≡ ok ctx)
              × IsServing
                  (record { pkey = pkey; cert = cert; chain = certs })
                  ctx
                  (from_pkcs12 L buf pass >>= λ i. acceptor_new L build (acceptor_builder i)))
    unfolding acceptor_new acceptor_builder
    acceptor_new-from_pkcs12 build buf pass pkcs12 pkey cert certs h parsed split =
        let i : Identity L = record { pkey = pkey; cert = cert; chain = certs } in
        let b = acceptor_builder i in
        let calls = acceptor_calls L b in
        rw (from_pkcs12-chain L buf pass pkcs12 pkey cert certs parsed split)
          (elim (Result-cases L.mozilla_intermediate) [
            | inl (ctx, e) ↦
                let made = acceptor_set_up-make_all L build b ctx h tt tt in
                inr (
                  ctx,
                  e,
                  elim (make_all-outcome L calls ctx) [
                    | inl (y, r) ↦ inl (
                      y,
                      r,
                      config-acceptor_set_up build b ctx h (rw made r),
                      rw e (rw made (rw r refl)),
                    )
                    | inr broken ↦ inr (
                        rw e (
                          rw made (
                            Breaks-bind L calls ctx (make_all L calls ctx)
                              (λ y. ok (L.build_acceptor y)) broken)))
                  ],
                )
            | inr (inl (x, e)) ↦ inl (inl (x, e, rw e refl))
            | inr (inr e) ↦ inl (inr (e, rw e refl))
          ])
