-- ===== src/Schannel/Connector/Connect.antt =====
-- What `TlsConnector::connect` of src/imp/schannel.rs asks the library for.
use rust_native_tls.Prelude.{
  ℕ, ◌≡◌, refl, ◌∙◌, ap, Bool, true, false, Option, none, some, List, [], ◌∷◌, ok, ◌>>=◌, map_err,
  if◌then◌else◌,
}
use rust_native_tls.Protocol.{IsBound, IsOrdered, in_range}
use rust_native_tls.Schannel.Library.{Library, Fallible, outbound}
use rust_native_tls.Schannel.Protocols.{accepted, convert_protocols-in_range}
use rust_native_tls.Schannel.Connector.{
  TlsConnector, from_library, failed, verify_roots, versions, add_own, set_callback, set_alpn,
  connect_builder, connect,
}

abbrev pub Callback : Library → Type 0
Callback L = L.CertValidationResult → Fallible (Unit {0})

-- What one connection asks for.
pub record Request (L : Library) : Type 0 where
  pub store : Option L.CertStore
  pub domain : Option (List ℕ)
  pub sni : Bool
  pub any_hostname : Bool
  pub callback : Option (Callback L)
  pub alpn : List (List ℕ)

-- The documented behaviour of `tls_stream::Builder` and of `SchannelCred::builder()`.
pub record BuilderLaws (L : Library) : Type 0 where
  pub request : L.Builder → Request L
  pub cert_store_lem :
      (b : L.Builder) (s : L.CertStore)
      → request (L.cert_store b s) ≡ record (request b) { store = some s }
  pub domain_lem :
      (b : L.Builder) (d : List ℕ) → request (L.domain b d) ≡ record (request b) { domain = some d }
  pub use_sni_lem :
      (b : L.Builder) (v : Bool) → request (L.use_sni b v) ≡ record (request b) { sni = v }
  pub accept_invalid_hostnames_lem :
      (b : L.Builder) (v : Bool)
      → request (L.accept_invalid_hostnames b v) ≡ record (request b) { any_hostname = v }
  pub verify_callback_lem :
      (b : L.Builder) (f : Callback L)
      → request (L.verify_callback b f) ≡ record (request b) { callback = some f }
  pub request_application_protocols_lem :
      (b : L.Builder) (names : List (List ℕ))
      → request (L.request_application_protocols b names) ≡ record (request b) { alpn = names }
  pub request-builder_new : request L.builder_new ≡ record {
    store = none;
    domain = none;
    sni = true;
    any_hostname = false;
    callback = none;
    alpn = [];
  }
  pub protocols_of : L.CredBuilder → List L.Protocol
  pub own_of : L.CredBuilder → Option L.CertContext
  pub protocols_of-enabled_protocols :
      (b : L.CredBuilder) (ps : List L.Protocol) → protocols_of (L.enabled_protocols b ps) ≡ ps
  pub own_of-enabled_protocols :
      (b : L.CredBuilder) (ps : List L.Protocol) → own_of (L.enabled_protocols b ps) ≡ own_of b
  pub protocols_of-cert :
      (b : L.CredBuilder) (c : L.CertContext) → protocols_of (L.cert b c) ≡ protocols_of b
  pub own_of-cert : (b : L.CredBuilder) (c : L.CertContext) → own_of (L.cert b c) ≡ some c
  pub own_of-cred_builder : own_of L.cred_builder ≡ none

module _ (L : Library) (G : BuilderLaws L) where
  -- The callback that a connector's flags call for.
  abbrev pub callback_of : TlsConnector L → Option (Callback L)
  callback_of self =
      if self.accept_invalid_certs
      then some (λ res. ok tt)
      else if self.disable_built_in_roots
      then some (verify_roots L self.roots)
      else none

  -- What `connect` asks for.
  abbrev pub requested : TlsConnector L → List ℕ → Request L
  requested self domain = record {
    store = some self.roots;
    domain = some domain;
    sni = self.use_sni;
    any_hostname = self.accept_invalid_hostnames;
    callback = callback_of self;
    alpn = self.alpn;
  }

  abbrev callback_for : Bool → Bool → L.CertStore → Option (Callback L)
  callback_for any own roots =
      if any then some (λ res. ok tt) else if own then some (verify_roots L roots) else none

  request_callback :
      (any own : Bool) (roots : L.CertStore) (b : L.Builder)
      → (G.request b).callback ≡ none
      → G.request (
          if any
          then L.verify_callback b (λ res. ok tt)
          else if own
          then L.verify_callback b (verify_roots L roots)
          else b)
        ≡ record (G.request b) { callback = callback_for any own roots }
  request_callback true own roots b h = G.verify_callback_lem b (λ res. ok tt)
  request_callback false true roots b h = G.verify_callback_lem b (verify_roots L roots)
  request_callback false false roots b h =
      ap (λ (c : Option (Callback L)). record (G.request b) { callback = c }) h

  request-set_callback :
      (self : TlsConnector L) (b : L.Builder)
      → (G.request b).callback ≡ none
      → G.request (set_callback L self b) ≡ record (G.request b) { callback = callback_of self }
  unfolding set_callback
  request-set_callback self b h =
      request_callback self.accept_invalid_certs self.disable_built_in_roots self.roots b h

  request-set_alpn :
      (b : L.Builder) (names : List (List ℕ))
      → (G.request b).alpn ≡ []
      → G.request (set_alpn L b names) ≡ record (G.request b) { alpn = names }
  unfolding set_alpn
  request-set_alpn b [] h = ap (λ (names : List (List ℕ)). record (G.request b) { alpn = names }) h
  request-set_alpn b (name ∷ names) h = G.request_application_protocols_lem b (name ∷ names)

  pub request-connect_builder :
      (self : TlsConnector L) (domain : List ℕ)
      → G.request (connect_builder L self domain) ≡ requested self domain
  unfolding connect_builder
  request-connect_builder self domain =
      let stored = L.cert_store L.builder_new self.roots in
      let base =
        L.accept_invalid_hostnames (L.use_sni (L.domain stored domain) self.use_sni)
          self.accept_invalid_hostnames in
      let basic : G.request base ≡ record {
        store = some self.roots;
        domain = some domain;
        sni = self.use_sni;
        any_hostname = self.accept_invalid_hostnames;
        callback = none;
        alpn = [];
      } =
        simp (
          G.accept_invalid_hostnames_lem, G.use_sni_lem, G.domain_lem, G.cert_store_lem,
          G.request-builder_new,
        ) in
      let called = request-set_callback self base (ap (λ (r : Request L). r.callback) basic) in
      let full : G.request (set_callback L self base)
          ≡ record (requested self domain) { alpn = [] } =
        called ∙ ap (λ (r : Request L). record r { callback = callback_of self }) basic in
      request-set_alpn (set_callback L self base) self.alpn (ap (λ (r : Request L). r.alpn) full)
      ∙ ap (λ (r : Request L). record r { alpn = self.alpn }) full

  own_of-add_own :
      (b : L.CredBuilder) (c : Option L.CertContext)
      → G.own_of b ≡ none
      → G.own_of (add_own L b c) ≡ c
  unfolding add_own
  own_of-add_own b none h = h
  own_of-add_own b (some c) h = G.own_of-cert b c

  protocols_of-add_own :
      (b : L.CredBuilder) (c : Option L.CertContext)
      → G.protocols_of (add_own L b c) ≡ G.protocols_of b
  unfolding add_own
  protocols_of-add_own b none = refl
  protocols_of-add_own b (some c) = G.protocols_of-cert b c

  -- A connection asks for just what its connector says: the store of roots, the domain, SNI and
  -- host names by the flags, a callback that accepts every peer or only those under the added
  -- roots, or none, and the ALPN names. Its credential offers the connector's certificate and, for
  -- bounds that are absent or real versions, with the minimum at most one above the maximum,
  -- the versions in range.
  pub connect-requested :
      (self : TlsConnector L) (domain : List ℕ) (stream : L.Socket)
      → IsBound self.min_protocol
      → IsBound self.max_protocol
      → IsOrdered self.min_protocol self.max_protocol
      → (b : L.Builder) × (d : L.CredBuilder) × (G.request b ≡ requested self domain)
        × (G.own_of d ≡ self.cert)
        × (G.protocols_of d
            ≡ accepted L.ssl3 L.tls10 L.tls11 L.tls12
                (in_range self.min_protocol self.max_protocol))
        × (connect L self domain stream ≡ (
            map_err failed (L.acquire_cred d outbound) >>= λ cred.
            map_err (from_library L) (L.connect b cred stream)))
  unfolding connect
  connect-requested self domain stream low high ordered =
      let base =
        L.enabled_protocols L.cred_builder (versions L self.min_protocol self.max_protocol) in
      (
        connect_builder L self domain,
        add_own L base self.cert,
        request-connect_builder self domain,
        own_of-add_own base self.cert
            (G.own_of-enabled_protocols L.cred_builder _ ∙ G.own_of-cred_builder),
        protocols_of-add_own base self.cert
            ∙ G.protocols_of-enabled_protocols L.cred_builder _
            ∙ convert_protocols-in_range L.ssl3 L.tls10 L.tls11 L.tls12 self.min_protocol
                self.max_protocol low high ordered,
        refl,
      )
