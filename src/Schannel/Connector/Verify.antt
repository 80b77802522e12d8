-- ===== src/Schannel/Connector/Verify.antt =====
-- The verification callback of src/imp/schannel.rs.
use mathlib.Core.List.{Memᴰ}
use rust_native_tls.Prelude.{
  ◌≡◌, refl, ◌↔◌, Bool, true, Bool-cases, inl, inr, Option, none, some, List, [], ◌∷◌, ok,
  >>=-eq-ok, ap, arith,
}
use rust_native_tls.Schannel.Library.{Library}
use rust_native_tls.Schannel.Connector.{accept_rooted, any, has_root, verify_roots}

module _ (L : Library) where
  -- Some member passes the test.
  abbrev pub Some : {A : Type 0} → (A → Bool) → List A → Type 0
  Some {A} test xs = (x : A) × Memᴰ x xs × (test x ≡ true)

  any-Some : {A : Type 0} (test : A → Bool) (xs : List A) → any L test xs ≡ true → Some test xs
  unfolding any
  any-Some test [] h = cc
  any-Some test (x ∷ xs) h = elim (Bool-cases (test x)) [
    | inl e ↦ (x, Memᴰ.head refl, e)
    | inr e ↦ let (y, m, f) = any-Some test xs (ground arith) in (y, Memᴰ.tail m, f)
  ]

  any-of_mem :
      {A : Type 0} (test : A → Bool) {x : A} {xs : List A}
      → Memᴰ x xs
      → test x ≡ true
      → any L test xs ≡ true
  unfolding any
  any-of_mem test (Memᴰ.head p) e = rw (← ap test p, e)
  any-of_mem test (Memᴰ.tail {x = y} {xs = r} m) e = ground (arith, any-of_mem test m e)

  -- A certificate of the chain is equal to one of the roots.
  abbrev pub HoldsRoot : L.CertStore → List L.CertContext → Type 0
  HoldsRoot roots chain =
      (cert : L.CertContext) × Memᴰ cert chain
      × Some (λ root. L.context_eq root cert) (L.certs roots)

  has_root_iff :
      (roots : L.CertStore) (chain : List L.CertContext)
      → (has_root L roots (some chain) ≡ true) ↔ HoldsRoot roots chain
  unfolding has_root
  has_root_iff roots chain = (
    λ h. let (cert, m, e) = any-Some _ chain h in (cert, m, any-Some _ (L.certs roots) e),
    λ (cert, m, some_root).
        any-of_mem (λ cert. any L (λ root. L.context_eq root cert) (L.certs roots)) m
          (any-of_mem (λ root. L.context_eq root cert) some_root.1 some_root.2),
  )

  accept_rooted-eq-ok :
      (roots : L.CertStore) (c : Option (List L.CertContext))
      → accept_rooted L (has_root L roots c) ≡ ok tt
      → (chain : List L.CertContext) × (c ≡ some chain) × HoldsRoot roots chain
  unfolding has_root
  accept_rooted-eq-ok roots none h = cc
  accept_rooted-eq-ok roots (some chain) h = elim (Bool-cases (has_root L roots (some chain))) [
    | inl e ↦ (chain, refl, (has_root_iff roots chain).0 e)
    | inr e ↦ cc (ap (accept_rooted L) e, h)
  ]

  -- With `disable_built_in_roots` a peer is accepted exactly when the system's validation passed
  -- and the final chain holds one of the roots that the user added.
  pub verify_roots-eq-ok :
      (roots : L.CertStore) (res : L.CertValidationResult)
      → (verify_roots L roots res ≡ ok tt) ↔ (
          (L.result res ≡ ok tt)
          × ((chain : List L.CertContext) × (L.chain res ≡ some chain) × HoldsRoot roots chain))
  unfolding verify_roots
  verify_roots-eq-ok roots res = (
    λ h.
        let (valid, passed, rooted) = >>=-eq-ok (L.result res) _ h in
        let (chain, found, holds) = accept_rooted-eq-ok roots (L.chain res) rooted in
        (passed, (chain, found, holds)),
    λ (passed, holds). rw (passed, holds.1, (has_root_iff roots holds.0).1 holds.2),
  )
