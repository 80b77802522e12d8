-- ===== src/Schannel/Identity/Parse.antt =====
-- What `Identity::from_pkcs12` and `Identity::from_pkcs8` of src/imp/schannel.rs make of their input.
use rust_native_tls.Prelude.{
  ℕ, ◌≡◌, ap, sym, ◌∙◌, inl, inr, Bool-cases, true, false, Option, none, some, List, [], ◌∷◌, ◌++◌,
  ok, panic, >>=-eq-ok, All, starts_with, is_utf8, ok-injective, arith,
}
use rust_native_tls.Prelude.State.{continue-eq-ok}
use rust_native_tls.Schannel.Library.{Library, Fallible, always}
use rust_native_tls.Schannel.Certificate.{pem_blocks, add_rest, certificate_from_pem}
use rust_native_tls.Schannel.Pem.{new}
use rust_native_tls.Schannel.Identity.{
  identity_or_error, Process, pkcs8_guard, find_identity, from_pkcs12, from_pkcs8, parse_pkcs8,
  from_blocks, join_key, leaf_from_pem,
}

module _ (L : Library) where
  open L use {CertContext, CertStore}

  -- `cert` is the first of `certs` with a private key.
  abbrev pub IsFirst : L.System → CertContext → List CertContext → Type 0
  IsFirst s cert certs =
      (before : List CertContext) × (after : List CertContext) × (certs ≡ before ++ cert ∷ after)
      × All (λ c. L.has_private_key s c ≡ false) before
      × (L.has_private_key s cert ≡ true)

  find_identity-IsFirst :
      (s : L.System) (certs : List CertContext) (cert : CertContext)
      → find_identity L s certs ≡ some cert
      → IsFirst s cert certs
  unfolding find_identity
  find_identity-IsFirst s [] cert h = cc
  find_identity-IsFirst s (c ∷ certs) cert h = elim (Bool-cases (L.has_private_key s c)) [
    | inl e ↦ ([], certs, ground arith, tt, ground arith)
    | inr e ↦
        let (before, after, split, without, found) =
          find_identity-IsFirst s certs cert (ground arith) in
        (c ∷ before, after, ap (λ (r : List CertContext). c ∷ r) split, (e, without), found)
  ]

  identity_or_error-eq-ok :
      (o : Option CertContext) {cert : CertContext}
      → identity_or_error L o ≡ ok cert
      → o ≡ some cert
  unfolding identity_or_error
  identity_or_error-eq-ok none h = cc
  identity_or_error-eq-ok (some c) h = cc

  -- An identity from a PKCS#12 archive is the first certificate of the archive whose private key can
  -- be acquired once the archive is imported. The system is as the import leaves it, and the counter
  -- of containers as before.
  pub from_pkcs12-IsFirst :
      (buf pass : List ℕ) (p : Process L) {p' : Process L} {cert : CertContext}
      → from_pkcs12 L buf pass p ≡ (p', ok cert)
      → (store : CertStore) × (L.pfx_import pass buf p.system ≡ (p'.system, ok store))
        × (p'.counter ≡ p.counter)
        × IsFirst p'.system cert (L.certs store)
  unfolding from_pkcs12
  from_pkcs12-IsFirst buf pass p {p'} {cert} h =
      let (s, r) = L.pfx_import pass buf p.system in
      let (q, store, imported, rest) = continue-eq-ok (record p { system = s }, r) _ h in
      let opened : r ≡ ok store = ap (λ (x : Process L × Fallible CertStore). x.1) imported in
      let left : q ≡ p' = ap (λ (x : Process L × Fallible CertContext). x.0) rest in
      let kept : record p { system = s } ≡ p' =
        ap (λ (x : Process L × Fallible CertStore). x.0) imported ∙ left in
      let found = ap (λ (x : Process L × Fallible CertContext). x.1) rest in
      (
        store,
        ap (λ (x : Process L). (x.system, r)) kept ∙ ap (λ x. (p'.system, x)) opened,
        sym (ap (λ (x : Process L). x.counter) kept),
        rw left at (
            find_identity-IsFirst q.system (L.certs store) cert
              (identity_or_error-eq-ok (find_identity L q.system (L.certs store)) found)),
      )

  -- `c` is what the store gave for the certificate in `block`.
  abbrev pub IsStored : List ℕ → CertContext → Type 0
  IsStored block c =
      (cert : CertContext) × (before : CertStore) × (after : CertStore) × (certificate_from_pem L
          block
        ≡ ok cert)
      × (L.add_cert before cert always ≡ ok (after, c))

  -- With certificates after the leaf, the context that the loop leaves is that of the last.
  add_rest-last :
      (store : CertStore) (context : CertContext) (blocks : List (List ℕ)) (last : List ℕ)
      {c : CertContext}
      → add_rest L store context (blocks ++ last ∷ []) ≡ ok c
      → IsStored last c
  unfolding add_rest
  add_rest-last store context [] last h =
      let (cert, parsed, h₁) = >>=-eq-ok (certificate_from_pem L last) _ h in
      let (added, stored, h₂) = >>=-eq-ok (L.add_cert store cert always) _ h₁ in
      (
        cert,
        store,
        added.0,
        parsed,
        stored ∙ ap (λ (c : CertContext). ok (added.0, c)) (ok-injective h₂),
      )
  add_rest-last store context (block ∷ blocks) last h =
      let (cert, parsed, h₁) = >>=-eq-ok (certificate_from_pem L block) _ h in
      let (added, stored, h₂) = >>=-eq-ok (L.add_cert store cert always) _ h₁ in
      add_rest-last added.0 added.1 blocks last h₂

  from_blocks-last :
      (store : CertStore) (key leaf last : List ℕ) (middle : List (List ℕ)) (p : Process L)
      {p' : Process L} {c : CertContext}
      → from_blocks L store (leaf ∷ middle ++ last ∷ []) key p ≡ (p', ok c)
      → IsStored last c
  unfolding from_blocks
  from_blocks-last store key leaf last middle p h =
      let (p₁, read, a, h₁) = continue-eq-ok (p, leaf_from_pem L leaf) _ h in
      let (p₂, joined, b, h₂) = continue-eq-ok (join_key L read key p₁) _ h₁ in
      let (p₃, added, d, h₃) = continue-eq-ok (p₂, L.add_cert store joined always) _ h₂ in
      add_rest-last added.0 added.1 middle last
        (ap (λ (r : Process L × Fallible CertContext). r.1) h₃)

  -- Where `from_pkcs8` succeeds on a PEM text of two blocks or more, the identity is the certificate
  -- of the last block, as it was added to the store.
  pub from_pkcs8-last :
      (pem key : List ℕ) (p : Process L) (leaf last : List ℕ) (middle : List (List ℕ))
      {p' : Process L} {c : CertContext}
      → pem_blocks pem ≡ ok (leaf ∷ middle ++ last ∷ [])
      → from_pkcs8 L pem key p ≡ (p', ok c)
      → IsStored last c
  unfolding from_pkcs8 parse_pkcs8
  from_pkcs8-last pem key p leaf last middle split h =
      elim (Bool-cases (starts_with key pkcs8_guard)) [
        | inl e ↦
            let (p₁, store, a, h₁) = continue-eq-ok (p, L.memory_store) _ (rw e at h) in
            let (p₂, blocks, b, h₂) = continue-eq-ok (p₁, pem_blocks pem) _ h₁ in
            let same : blocks ≡ leaf ∷ middle ++ last ∷ [] =
              ok-injective
                (sym (ap (λ (r : Process L × Fallible (List (List ℕ))). r.1) b) ∙ split) in
            from_blocks-last store key leaf last middle p₂ (rw same at h₂)
        | inr e ↦ cc (rw e at h)
      ]

  -- Bytes that are not UTF-8 panic, where the key has its header and the store can be made.
  pub from_pkcs8_panics :
      (pem key : List ℕ) (p : Process L) (store : CertStore)
      → starts_with key pkcs8_guard ≡ true
      → L.memory_store ≡ ok store
      → is_utf8 pem ≡ false
      → from_pkcs8 L pem key p ≡ (p, panic)
  unfolding from_pkcs8 parse_pkcs8 pem_blocks new
  from_pkcs8_panics pem key p store h m u = rw (h, m, u)
