-- ===== src/Openssl/Connector/Total.antt =====
-- What `TlsConnector::new` of src/imp/openssl.rs returns, whichever call of the library fails.
use rust_native_tls.Prelude.{◌≡◌, refl, true, Result-cases, ok, inl, inr, ◌⊎◌}
use rust_native_tls.Protocol.{IsBound}
use rust_native_tls.Openssl.Library.{Library}
use rust_native_tls.Openssl.View.{OptionLaws, ContextLaws}
use rust_native_tls.Openssl.Trust.{Process, init_trust}
use rust_native_tls.Openssl.Connector.{Build, TlsConnector, new}
use rust_native_tls.Openssl.Connector.Calls.{
  IsFailure, Breaks, Breaks-bind, make_all, make_all-outcome, connector_calls,
}
use rust_native_tls.Openssl.Connector.Calls.Order.{set_up-make_all}
use rust_native_tls.Openssl.Connector.SetUp.{ConnectorBuilder, requested, config-set_up}

module _ (L : Library) (O : OptionLaws L.crypto L.context) (V : ContextLaws L.crypto L.context O)
    (build : Build) where
  open L use {SslContextBuilder}

  abbrev pub connector_of : ConnectorBuilder L → SslContextBuilder → TlsConnector L
  connector_of b y = record {
    connector = L.build_connector y;
    use_sni = b.use_sni;
    accept_invalid_hostnames = b.accept_invalid_hostnames;
    accept_invalid_certs = b.accept_invalid_certs;
  }

  -- The result is a connector of the context that the builder's calls make of `ctx`, which has just
  -- the settings that the builder asks for, or the failure of the first of the calls that fails.
  abbrev pub IsNew : ConnectorBuilder L → Process L → SslContextBuilder → Type 0
  IsNew b process ctx =
      let calls = connector_calls L build.android b in
      ((y : SslContextBuilder) × (make_all L calls ctx ≡ ok y)
        × (V.config y ≡ requested L O V build.android b (V.config ctx))
        × ((new L build b process).0 ≡ ok (connector_of b y)))
      ⊎ Breaks L calls ctx (new L build b process).0

  -- Of a build with `have_min_max_version`, for bounds that are absent or real versions: what
  -- `TlsConnector::new` returns, whatever the library does. Where the library gives no builder, it is
  -- that failure. Else the options of the builder are calls on its context, in the order of the
  -- source. Where each of them succeeds, it is a connector of the context that they leave, with just
  -- the settings that the options ask for and with the builder's three flags. Where one does not, it
  -- is the failure of the first such. On Android the last calls add the certificates of the
  -- system's directory to the store, with `disable_built_in_roots` too.
  pub new_lem :
      (b : ConnectorBuilder L) (process : Process L)
      → build.have_min_max_version ≡ true
      → IsBound b.min_protocol
      → IsBound b.max_protocol
      → IsFailure L (L.connector_builder (init_trust L process).env) (new L build b process).0
        ⊎ ((ctx : SslContextBuilder) × (L.connector_builder (init_trust L process).env ≡ ok ctx)
            × IsNew b process ctx)
  unfolding new
  new_lem b process h low high =
      let calls = connector_calls L build.android b in
      elim (Result-cases (L.connector_builder (init_trust L process).env)) [
        | inl (ctx, e) ↦
            let made = set_up-make_all L build b ctx h low high in
            inr (
              ctx,
              e,
              elim (make_all-outcome L calls ctx) [
                | inl (y, r) ↦ inl (
                  y,
                  r,
                  config-set_up L O V build b ctx h (rw made r),
                  rw e (rw made (rw r refl)),
                )
                | inr broken ↦ inr (
                    rw e (
                      rw made (
                        Breaks-bind L calls ctx (make_all L calls ctx) (λ y. ok (connector_of b y))
                          broken)))
              ],
            )
        | inr (inl (x, e)) ↦ inl (inl (x, e, rw e refl))
        | inr (inr e) ↦ inl (inr (e, rw e refl))
      ]
