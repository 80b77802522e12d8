-- ===== src/Api/Policy/Openssl.antt =====
-- Connections of src/lib.rs over src/imp/openssl.rs, from the builder to the library.
use rust_native_tls.Prelude.{
  true, ℕ, ◌≡◌, ap, sym, ◌∙◌, not, List, Result, ok, map_err, if◌then◌else◌,
}
use rust_native_tls.Prelude.State.{continue-eq-ok}
use rust_native_tls.Builder.Connector.{TlsConnectorBuilder, connector_builder}
use rust_native_tls.Openssl.Library.{Library}
use rust_native_tls.Openssl.Error
use rust_native_tls.Openssl.Error.{from_ssl}
use rust_native_tls.Openssl.Identity.{Identity}
use rust_native_tls.Openssl.Trust.{Process, init_trust}
use rust_native_tls.Openssl.Connector
use rust_native_tls.Openssl.Connector.{TlsConnector, Build}
use rust_native_tls.Openssl.Connector.Connect.{ConfigurationLaws, connect_lem, new-flags}
use rust_native_tls.Api.Backend.{Backend}
use rust_native_tls.Api.Openssl
use rust_native_tls.Api.Openssl.{Texts}
use rust_native_tls.Api.Credentials.{connector_build, connector_new}
use rust_native_tls.Api.Connections.{handshaken, connect, connect-handshaken}

module _ (L : Library) (G : ConfigurationLaws L) (T : Texts L) (build : Build) where
  abbrev pub backend : Backend
  backend = Openssl.backend L T build

  abbrev pub Builder : Type 0
  Builder = TlsConnectorBuilder (Identity L) L.X509

  -- The process and the result after a call.
  abbrev Call : Type 0
  Call = Process L × Result (Error.Error L) (TlsConnector L)

  built :
      (b : Builder) (p : Process L) {p' : Process L} {c : TlsConnector L}
      → connector_build backend b p ≡ (p', ok c)
      → (p' ≡ init_trust L p) × ((Connector.new L build b p).0 ≡ ok c)
  unfolding connector_build Connector.new
  built b p h =
      let r = Connector.new L build b p in
      let (q, made, first, last) = continue-eq-ok (r.1, r.0) _ h in
      let both = first ∙ last in (sym (ap (λ (x : Call). x.0) both), ap (λ (x : Call). x.1) both)

  -- A builder that builds a connector has set up the trust roots of the process. A connection of the
  -- connector that the library configures is one handshake, converted to the public error type,
  -- that sends SNI as the builder says, checks the host name unless it accepts invalid ones, and
  -- checks certificates in the mode that the library configures unless it accepts invalid ones.
  pub connector_build-Checks :
      (b : Builder) (p : Process L) {p' : Process L} {c : TlsConnector L} (domain : List ℕ)
      (stream : L.Socket) {cfg : L.ConnectConfiguration}
      → connector_build backend b p ≡ (p', ok c)
      → L.configure c.connector ≡ ok cfg
      → (p' ≡ init_trust L p)
        × ((cc : L.ConnectConfiguration) × (connect backend c domain stream
              ≡ handshaken backend (map_err (from_ssl L) (L.connect cc domain stream)))
            × (G.checks cc ≡ record {
              sni = b.use_sni;
              hostname = not b.accept_invalid_hostnames;
              mode = if b.accept_invalid_certs then L.verify_none else (G.checks cfg).mode;
            }))
  unfolding connect
  connector_build-Checks b p {c = c} domain stream h k =
      let (trusted, made) = built b p h in
      let (sni, hostnames, certs) = new-flags L G build b p made in
      let (cc, run, checked) = connect_lem L G c domain stream k in
      (
        trusted,
        (
          cc,
          connect-handshaken backend (Connector.connect L c domain stream)
              ∙ ap (handshaken backend) run,
          checked ∙ rw (sni, hostnames, certs),
        ),
      )

  -- A connector of `TlsConnector::new` checks its peer: each connection that the library configures
  -- sends SNI, checks the host name, and checks certificates in the mode that the library
  -- configures.
  pub connector_new-Checks :
      (p : Process L) {p' : Process L} {c : TlsConnector L} (domain : List ℕ) (stream : L.Socket)
      {cfg : L.ConnectConfiguration}
      → connector_new backend p ≡ (p', ok c)
      → L.configure c.connector ≡ ok cfg
      → (cc : L.ConnectConfiguration) × (connect backend c domain stream
          ≡ handshaken backend (map_err (from_ssl L) (L.connect cc domain stream)))
        × (G.checks cc ≡ record { sni = true; hostname = true; mode = (G.checks cfg).mode })
  unfolding connector_new connector_builder
  connector_new-Checks p domain stream h k =
      (connector_build-Checks (connector_builder (Identity L) L.X509) p domain stream h k).1
