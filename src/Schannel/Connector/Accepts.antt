-- ===== src/Schannel/Connector/Accepts.antt =====
-- Which peers a connection of src/imp/schannel.rs accepts, by the builder that the connector was made
-- from.
use mathlib.Core.List.{Memᴰ}
use rust_native_tls.Prelude.{
  ℕ, ◌≡◌, ◌↔◌, ◌⊎◌, inl, inr, refl, ap, sym, subst, ◌∙◌, Bool, true, false, Option, none, some,
  List, [], ◌∷◌, ok, ok-injective, >>=-eq-ok, if◌then◌else◌,
}
use rust_native_tls.Builder.Connector.{TlsConnectorBuilder}
use rust_native_tls.Schannel.Library.{Library, Fallible, replace_existing}
use rust_native_tls.Schannel.Connector.{TlsConnector, add_roots, new, verify_roots, connect_builder}
use rust_native_tls.Schannel.Connector.Verify.{Some, verify_roots-eq-ok}
use rust_native_tls.Schannel.Connector.Connect.{
  Callback, Request, BuilderLaws, request-connect_builder,
}

-- A certificate of the list is equal to the given one.
abbrev pub Holds : (L : Library) → List L.CertContext → L.CertContext → Type 0
Holds L certs c = Some L (λ root. L.context_eq root c) certs

module _ (L : Library) where
  pub Holds-cons :
      (x : L.CertContext) (xs : List L.CertContext) (c : L.CertContext)
      → Holds L (x ∷ xs) c ↔ ((L.context_eq x c ≡ true) ⊎ Holds L xs c)
  Holds-cons x xs c = (
    λ (root, m, e). elim m [
      | Memᴰ.head p ↦ inl (ap (λ r. L.context_eq r c) (sym p) ∙ e)
      | Memᴰ.tail n ↦ inr (root, n, e)
    ],
    λ h. elim h [ inl e ↦ (x, Memᴰ.head refl, e) | inr (root, m, e) ↦ (root, Memᴰ.tail m, e) ],
  )

-- The documented behaviour of `Memory::new` and of `CertStore::add_cert` that replaces an equal
-- certificate.
pub record StoreLaws (L : Library) : Type 0 where
  pub memory_store_lem : {s : L.CertStore} → L.memory_store ≡ ok s → L.certs s ≡ []
  pub add_cert_lem :
      (s : L.CertStore) (new_cert : L.CertContext) {s' : L.CertStore} {added : L.CertContext}
      → L.add_cert s new_cert replace_existing ≡ ok (s', added)
      → (c : L.CertContext)
      → Holds L (L.certs s') c ↔ ((L.context_eq new_cert c ≡ true) ⊎ Holds L (L.certs s) c)

module _ (L : Library) (G : BuilderLaws L) (T : StoreLaws L) where
  abbrev pub ConnectorBuilder : Type 0
  ConnectorBuilder = TlsConnectorBuilder L.CertContext L.CertContext

  Holds-nil : (c : L.CertContext) → Holds L [] c → ⊥
  Holds-nil c (root, m, e) = elim m [ ]

  -- The store after the loop holds the certificates of the loop and those that it held.
  add_roots-Holds :
      (s : L.CertStore) (certs : List L.CertContext) {s' : L.CertStore}
      → add_roots L s certs ≡ ok s'
      → (c : L.CertContext) → Holds L (L.certs s') c ↔ (Holds L certs c ⊎ Holds L (L.certs s) c)
  unfolding add_roots
  add_roots-Holds s [] h c =
      let same = ap L.certs (ok-injective h) in
      (
        λ held. inr (subst (λ cs. Holds L cs c) (sym same) held),
        λ held. elim held [
          | inl none_held ↦ absurd (Holds-nil c none_held)
          | inr kept ↦ subst (λ cs. Holds L cs c) same kept
        ],
      )
  add_roots-Holds s (cert ∷ certs) h c =
      let (added, once, rest) = >>=-eq-ok (L.add_cert s cert replace_existing) _ h in
      let (into, back) = add_roots-Holds added.0 certs rest c in
      let (first, last) = T.add_cert_lem s cert once c in
      let (split, join) = Holds-cons L cert certs c in
      (
        λ held. elim (into held) [
          | inl m ↦ inl (join (inr m))
          | inr m ↦ elim (first m) [ inl e ↦ inl (join (inl e)) | inr k ↦ inr k ]
        ],
        λ held. elim held [
          | inl m ↦ elim (split m) [ inl e ↦ back (inr (last (inl e))) | inr n ↦ back (inl n) ]
          | inr k ↦ back (inr (last (inr k)))
        ],
      )

  -- The decision on a peer: that of the callback, or without one that of the library's validation.
  pub judged : Option (Callback L) → L.CertValidationResult → Fallible (Unit {0})
  judged none res = L.result res
  judged (some callback) res = callback res

  -- The final chain holds a certificate that is among these.
  abbrev pub ChainHolds : L.CertValidationResult → (L.CertContext → Type 0) → Type 0
  ChainHolds res P =
      (chain : List L.CertContext) × (L.chain res ≡ some chain)
      × ((cert : L.CertContext) × Memᴰ cert chain × P cert)

  -- What two flags and the roots accept.
  abbrev pub IsAccepted : Bool → Bool → (L.CertContext → Type 0) → L.CertValidationResult → Type 0
  IsAccepted any own P res =
      (any ≡ true) ⊎ ((L.result res ≡ ok tt) × ((own ≡ false) ⊎ ChainHolds res P))

  judged-IsAccepted :
      (any own : Bool) (roots : L.CertStore) (res : L.CertValidationResult)
      → (judged
            (if any then some (λ res. ok tt) else if own then some (verify_roots L roots) else none)
            res
          ≡ ok tt)
        ↔ IsAccepted any own (Holds L (L.certs roots)) res
  unfolding judged
  judged-IsAccepted true own roots res = (λ h. inl refl, λ h. refl)
  judged-IsAccepted false true roots res =
      let (into, back) = verify_roots-eq-ok L roots res in
      (
        λ h. inr ((into h).0, inr (into h).1),
        λ h. elim h [
          | inl e ↦ cc e
          | inr (valid, r) ↦ elim r [ inl e ↦ cc e | inr rooted ↦ back (valid, rooted) ]
        ],
      )
  judged-IsAccepted false false roots res =
      (λ h. inr (h, inl refl), λ h. elim h [ inl e ↦ cc e | inr (valid, r) ↦ valid ])

  -- The connector of the builder with its roots in the store.
  abbrev pub connector_of : ConnectorBuilder → L.CertStore → TlsConnector L
  connector_of b store = record {
    cert = b.identity;
    roots = store;
    min_protocol = b.min_protocol;
    max_protocol = b.max_protocol;
    use_sni = b.use_sni;
    accept_invalid_hostnames = b.accept_invalid_hostnames;
    accept_invalid_certs = b.accept_invalid_certs;
    disable_built_in_roots = b.disable_built_in_roots;
    alpn = b.alpn;
  }

  added-Holds :
      (s : L.CertStore) (certs : List L.CertContext) {s' : L.CertStore}
      → L.memory_store ≡ ok s
      → add_roots L s certs ≡ ok s'
      → (c : L.CertContext) → Holds L (L.certs s') c ↔ Holds L certs c
  added-Holds s certs e h c =
      let (into, back) = add_roots-Holds s certs h c in
      (
        λ held. elim (into held) [
          | inl m ↦ m
          | inr k ↦ absurd (Holds-nil c (subst (λ cs. Holds L cs c) (T.memory_store_lem e) k))
        ],
        λ m. back (inl m),
      )

  -- The connector is that of the builder, with a store of just the builder's roots.
  pub new-connector_of :
      (b : ConnectorBuilder) {self : TlsConnector L}
      → new L b ≡ ok self
      → (store : L.CertStore) × (connector_of b store ≡ self)
        × ((c : L.CertContext) → Holds L (L.certs store) c ↔ Holds L b.root_certificates c)
  unfolding new
  new-connector_of b h =
      let (empty, made, rest) = >>=-eq-ok L.memory_store _ h in
      let (store, added, last) = >>=-eq-ok (add_roots L empty b.root_certificates) _ rest in
      (store, ok-injective last, added-Holds empty b.root_certificates made added)

  ChainHolds-map :
      (res : L.CertValidationResult) (P Q : L.CertContext → Type 0)
      → ((c : L.CertContext) → P c → Q c)
      → ChainHolds res P
      → ChainHolds res Q
  ChainHolds-map res P Q f (chain, found, (cert, m, p)) = (chain, found, (cert, m, f cert p))

  IsAccepted-map :
      (any own : Bool) (res : L.CertValidationResult) (P Q : L.CertContext → Type 0)
      → ((c : L.CertContext) → P c → Q c)
      → IsAccepted any own P res
      → IsAccepted any own Q res
  IsAccepted-map any own res P Q g (inl h) = inl h
  IsAccepted-map any own res P Q g (inr (valid, inl h)) = inr (valid, inl h)
  IsAccepted-map any own res P Q g (inr (valid, inr h)) =
      inr (valid, inr (ChainHolds-map res P Q g h))

  -- What the connection of a connector accepts.
  abbrev Accepts : ConnectorBuilder → List ℕ → L.CertValidationResult → TlsConnector L → Type 0
  Accepts b domain res self =
      (judged (G.request (connect_builder L self domain)).callback res ≡ ok tt)
      ↔ IsAccepted b.accept_invalid_certs b.disable_built_in_roots (Holds L b.root_certificates) res

  connector_of-Accepts :
      (b : ConnectorBuilder) (domain : List ℕ) (res : L.CertValidationResult) (store : L.CertStore)
      → ((c : L.CertContext) → Holds L (L.certs store) c ↔ Holds L b.root_certificates c)
      → Accepts b domain res (connector_of b store)
  connector_of-Accepts b domain res store held =
      let called =
        ap (λ (r : Request L). judged r.callback res)
          (request-connect_builder L G (connector_of b store) domain) in
      let any = b.accept_invalid_certs in
      let own = b.disable_built_in_roots in
      let (into, back) = judged-IsAccepted any own store res in
      let kept = Holds L (L.certs store) in
      let given = Holds L b.root_certificates in
      (
        λ k. IsAccepted-map any own res kept given (λ c. (held c).0) (into (sym called ∙ k)),
        λ k. called ∙ back (IsAccepted-map any own res given kept (λ c. (held c).1) k),
      )

  -- A connector that `new` makes accepts a peer exactly if the builder accepts invalid certificates,
  -- or the library's validation passed and, where the builder disables the built-in roots, the final
  -- chain holds a certificate equal to one that was added to the builder.
  pub new-IsAccepted :
      (b : ConnectorBuilder) (domain : List ℕ) (res : L.CertValidationResult)
      {self : TlsConnector L}
      → new L b ≡ ok self
      → (judged (G.request (connect_builder L self domain)).callback res ≡ ok tt)
        ↔ IsAccepted b.accept_invalid_certs b.disable_built_in_roots
            (Holds L b.root_certificates)
            res
  new-IsAccepted b domain res h =
      let (store, same, held) = new-connector_of b h in
      subst (Accepts b domain res) same (connector_of-Accepts b domain res store held)
