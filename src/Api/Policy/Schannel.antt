-- ===== src/Api/Policy/Schannel.antt =====
-- Connections of src/lib.rs over src/imp/schannel.rs, from the builder to the library.
use Prim.Native.String.{String}
use rust_native_tls.Prelude.{
  refl, ℕ, ◌≡◌, ◌↔◌, ap, subst, ◌∙◌, Option, none, some, List, Result, ok, map_err, ◌>>=◌,
  if◌then◌else◌,
}
use rust_native_tls.Prelude.State.{continue-eq-ok}
use rust_native_tls.Protocol.{IsBound, IsOrdered, in_range}
use rust_native_tls.Builder.Connector.{TlsConnectorBuilder}
use rust_native_tls.Builder.Acceptor.{TlsAcceptorBuilder}
use rust_native_tls.Schannel.Library.{Library, Io, inbound, outbound}
use rust_native_tls.Schannel.Protocols.{accepted, convert_protocols-in_range}
use rust_native_tls.Schannel.Identity.{Process}
use rust_native_tls.Schannel.Connector
use rust_native_tls.Schannel.Connector.{
  versions, TlsAcceptor, TlsConnector, HandshakeError, failed, from_library, verify_roots,
}
use rust_native_tls.Schannel.Connector.Connect.{Request, BuilderLaws, connect-requested}
use rust_native_tls.Schannel.Connector.Accepts.{Holds, StoreLaws, connector_of, new-connector_of}
use rust_native_tls.Api.Backend.{Backend}
use rust_native_tls.Api.Schannel
use rust_native_tls.Api.Credentials.{connector_build}
use rust_native_tls.Api.Connections.{
  acceptor_build, accept, handshaken, connect, connect-handshaken,
}

module _ (L : Library) (G : BuilderLaws L) (T : StoreLaws L) (Cause : Type 0)
    (source : Io → Option Cause) (text : Io → String) where
  abbrev pub backend : Backend
  backend = Schannel.backend L Cause source text

  abbrev pub Builder : Type 0
  Builder = TlsConnectorBuilder L.CertContext L.CertContext

  -- What the builder stands for, with its roots in a store.
  abbrev pub policy : Builder → L.CertStore → List ℕ → Request L
  policy b store domain = record {
    store = some store;
    domain = some domain;
    sni = b.use_sni;
    any_hostname = b.accept_invalid_hostnames;
    callback =
        if b.accept_invalid_certs
        then some (λ res. ok tt)
        else if b.disable_built_in_roots
        then some (verify_roots L store)
        else none;
    alpn = b.alpn;
  }

  -- A connection is a credential and then one handshake that asks for what the builder says.
  abbrev pub Asks : Builder → List ℕ → L.Socket → TlsConnector L → Type 0
  Asks b domain socket c =
      (store : L.CertStore) × (sb : L.Builder) × (d : L.CredBuilder) × ((x : L.CertContext)
        → Holds L (L.certs store) x ↔ Holds L b.root_certificates x)
      × (G.request sb ≡ policy b store domain)
      × (G.own_of d ≡ b.identity)
      × (G.protocols_of d
          ≡ accepted L.ssl3 L.tls10 L.tls11 L.tls12 (in_range b.min_protocol b.max_protocol))
      × (connect backend c domain socket
          ≡ handshaken backend (
              map_err failed (L.acquire_cred d outbound) >>= λ cred.
              map_err (from_library L) (L.connect sb cred socket)))

  connector_of-Asks :
      (b : Builder) (domain : List ℕ) (socket : L.Socket) (store : L.CertStore)
      → IsBound b.min_protocol
      → IsBound b.max_protocol
      → IsOrdered b.min_protocol b.max_protocol
      → ((x : L.CertContext) → Holds L (L.certs store) x ↔ Holds L b.root_certificates x)
      → Asks b domain socket (connector_of L G T b store)
  unfolding connect
  connector_of-Asks b domain socket store low high ordered held =
      let c = connector_of L G T b store in
      let (sb, d, asked, own, versions, run) =
        connect-requested L G c domain socket low high ordered in
      (
        store,
        sb,
        d,
        held,
        asked,
        own,
        versions,
        connect-handshaken backend (Connector.connect L c domain socket)
            ∙ ap (handshaken backend) run,
      )

  built :
      (b : Builder) (p : Process L) {p' : Process L} {c : TlsConnector L}
      → connector_build backend b p ≡ (p', ok c)
      → Connector.new L b ≡ ok c
  unfolding connector_build
  built b p h =
      let (q, made, first, last) = continue-eq-ok (p, Connector.new L b) _ h in
      ap (λ (r : Process L × Result Io (TlsConnector L)). r.1) first
      ∙ ap (λ (r : Process L × Result Io (TlsConnector L)). r.1) last

  -- Where a builder whose bounds are absent or real versions, the minimum at most one above the
  -- maximum, builds a connector, a connection of it acquires a credential with the builder's
  -- identity for the versions in range, and is then one handshake that asks for just what the builder
  -- says, with a store of just the builder's roots, converted to the public error type.
  pub connector_build-Asks :
      (b : Builder) (p : Process L) {p' : Process L} {c : TlsConnector L} (domain : List ℕ)
      (socket : L.Socket)
      → connector_build backend b p ≡ (p', ok c)
      → IsBound b.min_protocol
      → IsBound b.max_protocol
      → IsOrdered b.min_protocol b.max_protocol
      → Asks b domain socket c
  connector_build-Asks b p domain socket h low high ordered =
      let (store, same, held) = new-connector_of L G T b (built b p h) in
      subst (Asks b domain socket) same
        (connector_of-Asks b domain socket store low high ordered held)

  -- An acceptor's builder whose bounds are absent or real versions, the minimum at most one above
  -- the maximum, always builds. To accept is to acquire an inbound credential with the builder's
  -- identity for the versions in range, and then one handshake of a builder without settings,
  -- converted to the public error type.
  pub acceptor_build-Asks :
      (b : TlsAcceptorBuilder L.CertContext) (socket : L.Socket)
      → IsBound b.min_protocol
      → IsBound b.max_protocol
      → IsOrdered b.min_protocol b.max_protocol
      → (a : TlsAcceptor L) × (d : L.CredBuilder) × (acceptor_build backend b ≡ ok a)
        × (G.own_of d ≡ some b.identity)
        × (G.protocols_of d
            ≡ accepted L.ssl3 L.tls10 L.tls11 L.tls12 (in_range b.min_protocol b.max_protocol))
        × (accept backend a socket
            ≡ handshaken backend (
                map_err failed (L.acquire_cred d inbound) >>= λ cred.
                map_err (from_library L) (L.accept L.builder_new cred socket)))
  unfolding acceptor_build accept Connector.acceptor_new Connector.accept
  acceptor_build-Asks b socket low high ordered =
      let base = L.enabled_protocols L.cred_builder (versions L b.min_protocol b.max_protocol) in
      (
        record { cert = b.identity; min_protocol = b.min_protocol; max_protocol = b.max_protocol },
        L.cert base b.identity,
        refl,
        G.own_of-cert base b.identity,
        G.protocols_of-cert base b.identity
            ∙ G.protocols_of-enabled_protocols L.cred_builder _
            ∙ convert_protocols-in_range L.ssl3 L.tls10 L.tls11 L.tls12 b.min_protocol
                b.max_protocol low high ordered,
        refl,
      )
