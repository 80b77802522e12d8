-- ===== src/Api/Policy/Apple.antt =====
-- Connections of src/lib.rs over src/imp/security_framework.rs, from the builder to the library.
use Prim.Native.String.{String}
use rust_native_tls.Prelude.{ℕ, ◌≡◌, refl, ap, ◌∙◌, Option, List, ok}
use rust_native_tls.Protocol.{IsBound}
use rust_native_tls.Builder.Connector.{TlsConnectorBuilder}
use rust_native_tls.SecurityFramework.Library.{Library}
use rust_native_tls.SecurityFramework.Process.{Target, Process}
use rust_native_tls.SecurityFramework.Identity.{Identity}
use rust_native_tls.SecurityFramework.Connector
use rust_native_tls.SecurityFramework.Connector.{TlsConnector, client_stream}
use rust_native_tls.SecurityFramework.Connector.Request.{
  Request, ClientLaws, bound_of, identity_of, connect-Request,
}
use rust_native_tls.Api.Backend.{Backend}
use rust_native_tls.Api.Apple
use rust_native_tls.Api.Credentials.{connector_build}
use rust_native_tls.Api.Connections.{handshaken, connect, connect-handshaken}

module _ (L : Library) (G : ClientLaws L) (target : Target) (Cause : Type 0)
    (source : L.BaseError → Option Cause) (text : L.BaseError → String) where
  abbrev pub backend : Backend
  backend = Apple.backend L target Cause source text

  abbrev pub Builder : Type 0
  Builder = TlsConnectorBuilder (Identity L) L.SecCertificate

  -- What the builder stands for.
  abbrev pub policy : Builder → Request L
  policy b = record {
    min = bound_of L G b.min_protocol;
    max = bound_of L G b.max_protocol;
    identity = identity_of L G b.identity;
    anchors = b.root_certificates;
    sni = b.use_sni;
    any_hostname = b.accept_invalid_hostnames;
    any_certificate = b.accept_invalid_certs;
    anchors_only = b.disable_built_in_roots;
    alpn = b.alpn;
  }

  abbrev connector_of : Builder → TlsConnector L
  connector_of b = record {
    identity = b.identity;
    min_protocol = b.min_protocol;
    max_protocol = b.max_protocol;
    roots = b.root_certificates;
    use_sni = b.use_sni;
    danger_accept_invalid_hostnames = b.accept_invalid_hostnames;
    danger_accept_invalid_certs = b.accept_invalid_certs;
    disable_built_in_roots = b.disable_built_in_roots;
    alpn = b.alpn;
  }

  -- A builder whose bounds are absent or real versions always builds, and leaves the process alone.
  -- A connection of its connector is one handshake of the library that asks for just what the
  -- builder says, converted to the public error type.
  pub connector_build-Request :
      (b : Builder) (p : Process L) (domain : List ℕ) (socket : L.Socket)
      → IsBound b.min_protocol
      → IsBound b.max_protocol
      → (c : TlsConnector L) × (cb : L.ClientBuilder) × (connector_build backend b p ≡ (p, ok c))
        × (G.request cb ≡ policy b)
        × (connect backend c domain socket
            ≡ handshaken backend (client_stream L (L.client_handshake cb domain socket)))
  unfolding connector_build Connector.new connect
  connector_build-Request b p domain socket low high =
      let c = connector_of b in
      let (cb, asked, run) = connect-Request L G c domain socket low high in
      (
        c,
        cb,
        refl,
        asked,
        connect-handshaken backend (Connector.connect L c domain socket)
            ∙ ap (handshaken backend) run,
      )
