-- ===== src/Openssl/Connector/Connect.antt =====
-- What `TlsConnector::connect` of src/imp/openssl.rs asks the library to check.
use rust_native_tls.Prelude.{
  ℕ, ◌≡◌, ◌∙◌, ap, ◌↔◌, Bool, true, false, not, List, Result, ok, err, map_err, arith,
  map_err->>=-eq-ok, >>=-eq-ok, ok-injective, sym, if◌then◌else◌,
}
use rust_native_tls.Builder.Connector.{TlsConnectorBuilder, connector_builder}
use rust_native_tls.Openssl.Library.{Library, SslHandshakeError, would_block}
use rust_native_tls.Openssl.Error.{normal, failed, blocked, from_stack, from_ssl}
use rust_native_tls.Openssl.Identity.{Identity}
use rust_native_tls.Openssl.Trust.{Process, init_trust}
use rust_native_tls.Openssl.Connector.{TlsConnector, Build, connect, new, set_up}

-- What one connection checks.
pub record Checks (L : Library) : Type 0 where
  pub sni : Bool
  pub hostname : Bool
  pub mode : L.SslVerifyMode

-- The documented behaviour of `ConnectConfiguration`.
pub record ConfigurationLaws (L : Library) : Type 0 where
  pub checks : L.ConnectConfiguration → Checks L
  pub use_server_name_indication_lem :
      (c : L.ConnectConfiguration) (v : Bool)
      → checks (L.use_server_name_indication c v) ≡ record (checks c) { sni = v }
  pub verify_hostname_lem :
      (c : L.ConnectConfiguration) (v : Bool)
      → checks (L.verify_hostname c v) ≡ record (checks c) { hostname = v }
  pub set_verify_lem :
      (c : L.ConnectConfiguration) (m : L.SslVerifyMode)
      → checks (L.set_verify c m) ≡ record (checks c) { mode = m }

module _ (L : Library) (G : ConfigurationLaws L) where
  -- Where the library configures a connection, it is made with the connector's flags: SNI as `use_sni` says, the host name checked
  -- unless `accept_invalid_hostnames`, certificates checked in the mode that the library configures
  -- unless `accept_invalid_certs`. Its error is the library's, converted.
  pub connect_lem :
      (self : TlsConnector L) (domain : List ℕ) (stream : L.Socket) {cfg : L.ConnectConfiguration}
      → L.configure self.connector ≡ ok cfg
      → (c : L.ConnectConfiguration) × (connect L self domain stream
          ≡ map_err (from_ssl L) (L.connect c domain stream))
        × (G.checks c ≡ record {
          sni = self.use_sni;
          hostname = not self.accept_invalid_hostnames;
          mode = if self.accept_invalid_certs then L.verify_none else (G.checks cfg).mode;
        })
  unfolding connect
  connect_lem self domain stream {cfg} h =
      let base =
        L.verify_hostname (L.use_server_name_indication cfg self.use_sni)
          (not self.accept_invalid_hostnames) in
      (
        if self.accept_invalid_certs then L.set_verify base L.verify_none else base,
        rw h,
        checks_of self.accept_invalid_certs,
      )
    where
      checks_of :
          (accept : Bool)
          → G.checks (
              if accept
              then L.set_verify
                  (L.verify_hostname
                    (L.use_server_name_indication cfg self.use_sni)
                    (not self.accept_invalid_hostnames))
                  L.verify_none
              else (L.verify_hostname
                  (L.use_server_name_indication cfg self.use_sni)
                  (not self.accept_invalid_hostnames)))
            ≡ record {
              sni = self.use_sni;
              hostname = not self.accept_invalid_hostnames;
              mode = if accept then L.verify_none else (G.checks cfg).mode;
            }
      checks_of true =
          simp (G.set_verify_lem, G.verify_hostname_lem, G.use_server_name_indication_lem)
      checks_of false = simp (G.verify_hostname_lem, G.use_server_name_indication_lem)

  -- A failure of the set-up of a connection comes back as it is, before any handshake.
  pub connect_unconfigured :
      (self : TlsConnector L) (domain : List ℕ) (stream : L.Socket) {e : L.ErrorStack}
      → L.configure self.connector ≡ err e
      → connect L self domain stream ≡ err (failed (normal e))
  unfolding connect from_stack
  connect_unconfigured self domain stream h = rw h

  -- A connector has the flags of its builder.
  pub new-flags :
      (build : Build) (b : TlsConnectorBuilder (Identity L) L.X509) (process : Process L)
      {t : TlsConnector L}
      → (new L build b process).0 ≡ ok t
      → (t.use_sni ≡ b.use_sni)
        × (t.accept_invalid_hostnames ≡ b.accept_invalid_hostnames)
        × (t.accept_invalid_certs ≡ b.accept_invalid_certs)
  unfolding new
  new-flags build b process h =
      let (ctx, made, rest) =
        map_err->>=-eq-ok normal (L.connector_builder (init_trust L process).env) _ h in
      let (ctx', set, last) = >>=-eq-ok (set_up L build b ctx) _ rest in
      (
        sym (ap (λ (u : TlsConnector L). u.use_sni) (ok-injective last)),
        sym (ap (λ (u : TlsConnector L). u.accept_invalid_hostnames) (ok-injective last)),
        sym (ap (λ (u : TlsConnector L). u.accept_invalid_certs) (ok-injective last)),
      )

  -- A connector that `new` makes of a fresh builder checks its peer: each connection that the
  -- library configures sends SNI, checks the host name, and checks certificates in the mode that
  -- the library configures.
  pub connect_by_default :
      (build : Build) (process : Process L) (domain : List ℕ) (stream : L.Socket)
      {t : TlsConnector L} {cfg : L.ConnectConfiguration}
      → (new L build (connector_builder (Identity L) L.X509) process).0 ≡ ok t
      → L.configure t.connector ≡ ok cfg
      → (c : L.ConnectConfiguration) × (connect L t domain stream
          ≡ map_err (from_ssl L) (L.connect c domain stream))
        × (G.checks c ≡ record { sni = true; hostname = true; mode = (G.checks cfg).mode })
  unfolding connector_builder
  connect_by_default build process domain stream {t} {cfg} h k =
      let (sni, hostnames, certs) =
        new-flags build (connector_builder (Identity L) L.X509) process h in
      let (c, connected, checked) = connect_lem t domain stream k in
      (c, connected, checked ∙ rw (sni, hostnames, certs))

-- An interrupted handshake is handed back to go on with exactly where the library's handshake was
-- interrupted, and it is the same one.
from_ssl-blocked :
    (L : Library) (r : Result (SslHandshakeError L.crypto L.context L.session) L.SslStream)
    (mid : L.MidHandshakeSslStream)
    → (map_err (from_ssl L) r ≡ err (blocked mid)) ↔ (r ≡ err (would_block mid))
unfolding from_ssl
from_ssl-blocked L r mid = (λ h. ground arith, λ h. ground arith)
