-- ===== src/SecurityFramework/Connector/Serve.antt =====
-- What `TlsAcceptor::accept` of src/imp/security_framework.rs sets before its handshake.
use rust_native_tls.Prelude.{
  ◌≡◌, ◌⊎◌, inl, inr, refl, ap, sym, ◌∙◌, Option, none, some, List, Result, ok, err, panic, ◌>>=◌,
}
use rust_native_tls.Protocol.{Protocol, sslv3, tlsv10, tlsv11, tlsv12, non_exhaustive, IsBound}
use rust_native_tls.SecurityFramework.Library.{Library}
use rust_native_tls.SecurityFramework.Connector.{
  Handshaken, failed, TlsAcceptor, convert_protocol, set_bound, try, accept, server_stream,
}

-- What a context is set to.
pub record Settings (L : Library) : Type 0 where
  pub min : Option L.SslProtocol
  pub max : Option L.SslProtocol
  pub own : Option (L.SecIdentity × List L.SecCertificate)

-- The documented behaviour of `SslContext`.
pub record ServerLaws (L : Library) : Type 0 where
  pub settings : L.SslContext → Settings L
  pub context_new_lem :
      {c : L.SslContext}
      → L.context_new ≡ ok c
      → settings c ≡ record { min = none; max = none; own = none }
  pub set_protocol_version_min_lem :
      (c : L.SslContext) (v : L.SslProtocol) {c' : L.SslContext}
      → L.set_protocol_version_min c v ≡ ok c'
      → settings c' ≡ record (settings c) { min = some v }
  pub set_protocol_version_max_lem :
      (c : L.SslContext) (v : L.SslProtocol) {c' : L.SslContext}
      → L.set_protocol_version_max c v ≡ ok c'
      → settings c' ≡ record (settings c) { max = some v }
  pub set_certificate_lem :
      (c : L.SslContext) (i : L.SecIdentity) (chain : List L.SecCertificate) {c' : L.SslContext}
      → L.set_certificate c i chain ≡ ok c'
      → settings c' ≡ record (settings c) { own = some (i, chain) }

module _ (L : Library) where
  -- The version of the library for a bound.
  abbrev pub version_of : Option Protocol → Option L.SslProtocol
  version_of none = none
  version_of (some sslv3) = some L.ssl3
  version_of (some tlsv10) = some L.tls1
  version_of (some tlsv11) = some L.tls11
  version_of (some tlsv12) = some L.tls12
  version_of (some non_exhaustive) = none

  -- A handshake is the failure of a call of the library.
  abbrev pub IsFailure : {A : Type 0} → Result L.BaseError A → Handshaken L → Type 0
  IsFailure s r =
      ((e : L.BaseError) × (s ≡ err e) × (r ≡ err (failed e))) ⊎ ((s ≡ panic) × (r ≡ panic))

  -- One of the calls before the handshake has the property `F`.
  abbrev pub HasRefusal : ((A : Type 0) → Result L.BaseError A → Type 0) → TlsAcceptor L → Type 0
  HasRefusal F self =
      F L.SslContext L.context_new
      ⊎ ((c : L.SslContext) × (v : L.SslProtocol) × (version_of self.min_protocol ≡ some v)
          × F L.SslContext (L.set_protocol_version_min c v))
      ⊎ ((c : L.SslContext) × (v : L.SslProtocol) × (version_of self.max_protocol ≡ some v)
          × F L.SslContext (L.set_protocol_version_max c v))
      ⊎ ((c : L.SslContext) × F L.SslContext
            (L.set_certificate c self.identity.identity self.identity.chain))
      ⊎ F L.SecCertificate (L.identity_certificate self.identity.identity)

  pub HasRefusal-map :
      (F G : (A : Type 0) → Result L.BaseError A → Type 0) (self : TlsAcceptor L)
      → ((A : Type 0) (s : Result L.BaseError A) → F A s → G A s)
      → HasRefusal F self
      → HasRefusal G self
  HasRefusal-map F G self f (inl x) = inl (f _ _ x)
  HasRefusal-map F G self f (inr (inl (c, v, e, x))) = inr (inl (c, v, e, f _ _ x))
  HasRefusal-map F G self f (inr (inr (inl (c, v, e, x)))) = inr (inr (inl (c, v, e, f _ _ x)))
  HasRefusal-map F G self f (inr (inr (inr (inl (c, x))))) = inr (inr (inr (inl (c, f _ _ x))))
  HasRefusal-map F G self f (inr (inr (inr (inr x)))) = inr (inr (inr (inr (f _ _ x))))

  -- A call goes on or is the failure of the handshake.
  try-cases :
      {A : Type 0} (r : Result L.BaseError A) (f : A → Handshaken L) {t : Handshaken L}
      → try L r >>= f ≡ t
      → ((a : A) × (r ≡ ok a) × (f a ≡ t)) ⊎ IsFailure r t
  try-cases (ok a) f h = inl (a, refl, h)
  try-cases (err e) f h = inr (inl (e, refl, sym h))
  try-cases panic f h = inr (inr (refl, sym h))

  module _ (settings : L.SslContext → Settings L)
      (set : L.SslContext → L.SslProtocol → Result L.BaseError L.SslContext)
      (put : Option L.SslProtocol → Settings L → Settings L) where
    -- The version is set, where each that is set is recorded by `put`, or the call fails.
    abbrev IsBoundSet :
        L.SslContext → Option L.SslProtocol → (L.SslContext → Handshaken L) → Handshaken L → Type 0
    IsBoundSet c p f t =
        ((c' : L.SslContext) × (f c' ≡ t) × (settings c' ≡ put p (settings c)))
        ⊎ ((v : L.SslProtocol) × (p ≡ some v) × IsFailure (set c v) t)

    set_version-IsBoundSet :
        (c : L.SslContext) (v : L.SslProtocol) (f : L.SslContext → Handshaken L) {t : Handshaken L}
        → ((c' : L.SslContext) → set c v ≡ ok c' → settings c' ≡ put (some v) (settings c))
        → try L (set c v) >>= f ≡ t
        → IsBoundSet c (some v) f t
    set_version-IsBoundSet c v f law h = elim (try-cases (set c v) f h) [
      | inl (c', made, rest) ↦ inl (c', rest, law c' made)
      | inr failure ↦ inr (v, refl, failure)
    ]

    set_bound-IsBoundSet :
        (c : L.SslContext) (p : Option Protocol) (f : L.SslContext → Handshaken L)
        {t : Handshaken L}
        → IsBound p
        → ((v : L.SslProtocol) (c' : L.SslContext)
            → set c v ≡ ok c'
            → settings c' ≡ put (some v) (settings c))
        → settings c ≡ put none (settings c)
        → set_bound L set c p >>= f ≡ t
        → IsBoundSet c (version_of p) f t
    unfolding set_bound convert_protocol
    set_bound-IsBoundSet c none f b law unset h = inl (c, h, unset)
    set_bound-IsBoundSet c (some non_exhaustive) f b law unset h = elim b [ ]
    set_bound-IsBoundSet c (some sslv3) f b law unset h =
        set_version-IsBoundSet c L.ssl3 f (law L.ssl3) h
    set_bound-IsBoundSet c (some tlsv10) f b law unset h =
        set_version-IsBoundSet c L.tls1 f (law L.tls1) h
    set_bound-IsBoundSet c (some tlsv11) f b law unset h =
        set_version-IsBoundSet c L.tls11 f (law L.tls11) h
    set_bound-IsBoundSet c (some tlsv12) f b law unset h =
        set_version-IsBoundSet c L.tls12 f (law L.tls12) h

  module _ (G : ServerLaws L) where
    -- What the acceptor stands for.
    abbrev pub served : TlsAcceptor L → Settings L
    served self = record {
      min = version_of self.min_protocol;
      max = version_of self.max_protocol;
      own = some (self.identity.identity, self.identity.chain);
    }

    -- What is returned is what one handshake of the library gave, of a context with just the
    -- acceptor's bounds, identity and chain, and it goes with the certificate of that identity.
    abbrev pub IsServed : TlsAcceptor L → L.Socket → Handshaken L → Type 0
    IsServed self stream r =
        (ctx : L.SslContext) × (cert : L.SecCertificate) × (G.settings ctx ≡ served self)
        × (L.identity_certificate self.identity.identity ≡ ok cert)
        × (r ≡ server_stream L (some cert) (L.server_handshake ctx stream))

    -- After the bounds.
    own-IsServed :
        (self : TlsAcceptor L) (stream : L.Socket) (c : L.SslContext) {t : Handshaken L}
        → G.settings c ≡ record (served self) { own = none }
        → (do
          ctx ← try L (L.set_certificate c self.identity.identity self.identity.chain)
          cert ← try L (L.identity_certificate self.identity.identity)
          server_stream L (some cert) (L.server_handshake ctx stream))
          ≡ t
        → IsServed self stream t ⊎ HasRefusal (λ A s. IsFailure s t) self
    own-IsServed self stream c set h =
        let own = some (self.identity.identity, self.identity.chain) in
        elim (try-cases (L.set_certificate c self.identity.identity self.identity.chain) _ h) [
          | inr x ↦ inr (inr (inr (inr (inl (c, x)))))
          | inl (c', made, rest) ↦
              elim (try-cases (L.identity_certificate self.identity.identity) _ rest) [
                | inr x ↦ inr (inr (inr (inr (inr x))))
                | inl (cert, found, last) ↦ inl (
                  c',
                  cert,
                  G.set_certificate_lem c self.identity.identity self.identity.chain made
                      ∙ ap (λ (r : Settings L). record r { own = own }) set,
                  found,
                  sym last,
                )
              ]
        ]

    pub accept-IsServed :
        (self : TlsAcceptor L) (stream : L.Socket)
        → IsBound self.min_protocol
        → IsBound self.max_protocol
        → IsServed self stream (accept L self stream)
          ⊎ HasRefusal (λ A s. IsFailure s (accept L self stream)) self
    unfolding accept
    accept-IsServed self stream low high =
        let put_min = λ (v : Option L.SslProtocol) (r : Settings L). record r { min = v } in
        let put_max = λ (v : Option L.SslProtocol) (r : Settings L). record r { max = v } in
        let go_on : L.SslContext → Handshaken L = λ c. (do
          c ← set_bound L L.set_protocol_version_min c self.min_protocol
          c ← set_bound L L.set_protocol_version_max c self.max_protocol
          c ← try L (L.set_certificate c self.identity.identity self.identity.chain)
          cert ← try L (L.identity_certificate self.identity.identity)
          server_stream L (some cert) (L.server_handshake c stream)) in
        elim (try-cases L.context_new go_on refl) [
          | inr x ↦ inr (inl x)
          | inl (c₀, made₀, rest₀) ↦
              let fresh = G.context_new_lem made₀ in
              elim (set_bound-IsBoundSet G.settings L.set_protocol_version_min put_min c₀
                self.min_protocol _ low (λ v c' e. G.set_protocol_version_min_lem c₀ v e)
                (fresh ∙ sym (ap (put_min none) fresh)) rest₀) [
                  | inr (v, e, x) ↦ inr (inr (inl (c₀, v, e, x)))
                  | inl (c₁, rest₁, put₁) ↦
                      let lower = put₁ ∙ ap (put_min (version_of self.min_protocol)) fresh in
                      elim (set_bound-IsBoundSet G.settings L.set_protocol_version_max put_max c₁
                        self.max_protocol _ high (λ v c' e. G.set_protocol_version_max_lem c₁ v e)
                        (lower ∙ sym (ap (put_max none) lower)) rest₁) [
                          | inr (v, e, x) ↦ inr (inr (inr (inl (c₁, v, e, x))))
                          | inl (c₂, rest₂, put₂) ↦
                              let upper =
                                put₂ ∙ ap (put_max (version_of self.max_protocol)) lower in
                              own-IsServed self stream c₂ upper rest₂
                        ]
                ]
        ]
