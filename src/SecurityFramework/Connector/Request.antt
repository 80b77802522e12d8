-- ===== src/SecurityFramework/Connector/Request.antt =====
-- What `TlsConnector::connect` of src/imp/security_framework.rs asks the library for.
use rust_native_tls.Prelude.{
  ℕ, ◌≡◌, refl, ◌∙◌, ap, Bool, true, false, Option, none, some, List, [], ◌∷◌, ok,
}
use rust_native_tls.Protocol.{Protocol, sslv3, tlsv10, tlsv11, tlsv12, non_exhaustive, IsBound}
use rust_native_tls.SecurityFramework.Library.{Library}
use rust_native_tls.SecurityFramework.Identity.{Identity}
use rust_native_tls.SecurityFramework.Connector.{
  TlsConnector, client_stream, client_options, convert_protocol, use_bound, use_identity, use_alpn,
  connect,
}

-- What one connection asks for.
pub record Request (L : Library) : Type 0 where
  pub min : Option L.SslProtocol
  pub max : Option L.SslProtocol
  pub identity : Option (L.SecIdentity × List L.SecCertificate)
  pub anchors : List L.SecCertificate
  pub sni : Bool
  pub any_hostname : Bool
  pub any_certificate : Bool
  pub anchors_only : Bool
  pub alpn : List (List ℕ)

-- The documented behaviour of `ClientBuilder`.
pub record ClientLaws (L : Library) : Type 0 where
  pub request : L.ClientBuilder → Request L
  pub request-client_builder_new : request L.client_builder_new ≡ record {
    min = none;
    max = none;
    identity = none;
    anchors = [];
    sni = true;
    any_hostname = false;
    any_certificate = false;
    anchors_only = false;
    alpn = [];
  }
  pub protocol_min_lem :
      (b : L.ClientBuilder) (v : L.SslProtocol)
      → request (L.protocol_min b v) ≡ record (request b) { min = some v }
  pub protocol_max_lem :
      (b : L.ClientBuilder) (v : L.SslProtocol)
      → request (L.protocol_max b v) ≡ record (request b) { max = some v }
  pub identity_lem :
      (b : L.ClientBuilder) (i : L.SecIdentity) (chain : List L.SecCertificate)
      → request (L.identity b i chain) ≡ record (request b) { identity = some (i, chain) }
  pub anchor_certificates_lem :
      (b : L.ClientBuilder) (certs : List L.SecCertificate)
      → request (L.anchor_certificates b certs) ≡ record (request b) { anchors = certs }
  pub use_sni_lem :
      (b : L.ClientBuilder) (v : Bool) → request (L.use_sni b v) ≡ record (request b) { sni = v }
  pub danger_accept_invalid_hostnames_lem :
      (b : L.ClientBuilder) (v : Bool)
      → request (L.danger_accept_invalid_hostnames b v) ≡ record (request b) { any_hostname = v }
  pub danger_accept_invalid_certs_lem :
      (b : L.ClientBuilder) (v : Bool)
      → request (L.danger_accept_invalid_certs b v) ≡ record (request b) { any_certificate = v }
  pub trust_anchor_certificates_only_lem :
      (b : L.ClientBuilder) (v : Bool)
      → request (L.trust_anchor_certificates_only b v) ≡ record (request b) { anchors_only = v }
  pub alpn_protocols_lem :
      (b : L.ClientBuilder) (names : List (List ℕ))
      → request (L.alpn_protocols b names) ≡ record (request b) { alpn = names }

module _ (L : Library) (G : ClientLaws L) where
  -- The library's version for a bound.
  abbrev pub bound_of : Option Protocol → Option L.SslProtocol
  bound_of none = none
  bound_of (some sslv3) = some L.ssl3
  bound_of (some tlsv10) = some L.tls1
  bound_of (some tlsv11) = some L.tls11
  bound_of (some tlsv12) = some L.tls12
  bound_of (some non_exhaustive) = none

  abbrev pub identity_of : Option (Identity L) → Option (L.SecIdentity × List L.SecCertificate)
  identity_of none = none
  identity_of (some i) = some (i.identity, i.chain)

  abbrev pub requested : TlsConnector L → Request L
  requested self = record {
    min = bound_of self.min_protocol;
    max = bound_of self.max_protocol;
    identity = identity_of self.identity;
    anchors = self.roots;
    sni = self.use_sni;
    any_hostname = self.danger_accept_invalid_hostnames;
    any_certificate = self.danger_accept_invalid_certs;
    anchors_only = self.disable_built_in_roots;
    alpn = self.alpn;
  }

  -- A builder with the bounds set.
  IsBounded : L.ClientBuilder → Option L.SslProtocol → Option L.SslProtocol → Type 0
  IsBounded b min max =
      G.request b ≡ record (G.request L.client_builder_new) { min = min; max = max }

  use_min :
      (p : Option Protocol)
      → IsBound p
      → (b : L.ClientBuilder) × (use_bound L L.protocol_min L.client_builder_new p ≡ ok b)
        × IsBounded b (bound_of p) none
  unfolding use_bound convert_protocol IsBounded
  use_min none h = (_, refl, rw G.request-client_builder_new)
  use_min (some non_exhaustive) h = elim h [ ]
  use_min (some sslv3) h = (_, refl, simp (G.protocol_min_lem, G.request-client_builder_new))
  use_min (some tlsv10) h = (_, refl, simp (G.protocol_min_lem, G.request-client_builder_new))
  use_min (some tlsv11) h = (_, refl, simp (G.protocol_min_lem, G.request-client_builder_new))
  use_min (some tlsv12) h = (_, refl, simp (G.protocol_min_lem, G.request-client_builder_new))

  use_max :
      (b : L.ClientBuilder) (min : Option L.SslProtocol) (p : Option Protocol)
      → IsBounded b min none
      → IsBound p
      → (c : L.ClientBuilder) × (use_bound L L.protocol_max b p ≡ ok c)
        × IsBounded c min (bound_of p)
  unfolding use_bound convert_protocol IsBounded
  use_max b min none m h = (_, refl, m)
  use_max b min (some non_exhaustive) m h = elim h [ ]
  use_max b min (some sslv3) m h = (_, refl, rw (G.protocol_max_lem, m))
  use_max b min (some tlsv10) m h = (_, refl, rw (G.protocol_max_lem, m))
  use_max b min (some tlsv11) m h = (_, refl, rw (G.protocol_max_lem, m))
  use_max b min (some tlsv12) m h = (_, refl, rw (G.protocol_max_lem, m))

  request-use_identity :
      (b : L.ClientBuilder) (i : Option (Identity L))
      → (G.request b).identity ≡ none
      → G.request (use_identity L b i) ≡ record (G.request b) { identity = identity_of i }
  unfolding use_identity
  request-use_identity b none h =
      ap
        (λ (i : Option (L.SecIdentity × List L.SecCertificate)). record (G.request b) {
          identity = i;
        })
        h
  request-use_identity b (some i) h = G.identity_lem b i.identity i.chain

  request-use_alpn :
      (b : L.ClientBuilder) (names : List (List ℕ))
      → (G.request b).alpn ≡ []
      → G.request (use_alpn L b names) ≡ record (G.request b) { alpn = names }
  unfolding use_alpn
  request-use_alpn b [] h = ap (λ (names : List (List ℕ)). record (G.request b) { alpn = names }) h
  request-use_alpn b (name ∷ names) h = G.alpn_protocols_lem b (name ∷ names)

  request-client_options :
      (self : TlsConnector L) (b : L.ClientBuilder) (min max : Option L.SslProtocol)
      → IsBounded b min max
      → G.request (client_options L self b) ≡ record (requested self) { min = min; max = max }
  unfolding client_options IsBounded
  request-client_options self b min max h =
      let bounded =
        h
        ∙ ap (λ (r : Request L). record r { min = min; max = max }) G.request-client_builder_new in
      let identified =
        request-use_identity b self.identity (ap (λ (r : Request L). r.identity) bounded)
        ∙ ap (λ (r : Request L). record r { identity = identity_of self.identity }) bounded in
      let built =
        L.trust_anchor_certificates_only
          (L.danger_accept_invalid_certs
            (L.danger_accept_invalid_hostnames
              (L.use_sni (L.anchor_certificates (use_identity L b self.identity) self.roots)
                self.use_sni)
              self.danger_accept_invalid_hostnames)
            self.danger_accept_invalid_certs)
          self.disable_built_in_roots in
      let full : G.request built ≡ record (requested self) { min = min; max = max; alpn = [] } =
        simp (
          G.trust_anchor_certificates_only_lem, G.danger_accept_invalid_certs_lem,
          G.danger_accept_invalid_hostnames_lem, G.use_sni_lem, G.anchor_certificates_lem,
          identified,
        ) in
      request-use_alpn built self.alpn (ap (λ (r : Request L). r.alpn) full)
      ∙ ap (λ (r : Request L). record r { alpn = self.alpn }) full

  -- For bounds that are absent or real versions a connection is one handshake of the library, which
  -- asks for just what the connector says: its bounds, its identity, its roots as anchors, SNI,
  -- host names and certificates by the flags, only its own anchors where the built-in roots are
  -- disabled, and the ALPN names.
  pub connect-Request :
      (self : TlsConnector L) (domain : List ℕ) (stream : L.Socket)
      → IsBound self.min_protocol
      → IsBound self.max_protocol
      → (b : L.ClientBuilder) × (G.request b ≡ requested self)
        × (connect L self domain stream ≡ client_stream L (L.client_handshake b domain stream))
  unfolding connect
  connect-Request self domain stream low high =
      let (b₁, set_low, bounded₁) = use_min self.min_protocol low in
      let (b₂, set_high, bounded₂) = use_max b₁ _ self.max_protocol bounded₁ high in
      (
        client_options L self b₂,
        request-client_options self b₂ _ _ bounded₂,
        rw set_low (rw set_high),
      )
