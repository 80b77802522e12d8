-- ===== src/SecurityFramework/Pkcs12/Chain.antt =====
-- What `Identity::from_pkcs12` of src/imp/security_framework.rs makes of the imports.
use mathlib.Core.List.{Memᴰ}
use rust_native_tls.Prelude.{
  same_text_refl, keep, ℕ, ◌≡◌, ◌≢◌, refl, ap, subst, ok-injective, ◌∙◌, ◌↔◌, Bool, true, not,
  Option, none, some, List, [], ◌∷◌, ◌++◌, same_text, same_text-eq, Result, ok, Bool-cases, inl,
  inr, arith,
}
use rust_native_tls.Prelude.State.{continue-eq-ok, lift}
use rust_native_tls.SecurityFramework.Library.{Library}
use rust_native_tls.SecurityFramework.Process.{Target, Process}
use rust_native_tls.SecurityFramework.Identity.{Identity}
use rust_native_tls.SecurityFramework.Pkcs12.{
  Import, pop, import_options, chain_of, with_chain, identity_of, from_last, from_pkcs12,
}

pop-split :
    {A : Type 0} (xs : List A) {x : A}
    → pop xs ≡ some x
    → (before : List A) × (xs ≡ before ++ x ∷ [])
unfolding pop
pop-split [] h = cc
pop-split (y ∷ []) h = ([], ground arith)
pop-split (y ∷ z ∷ rest) h = let (before, e) = pop-split (z ∷ rest) h in (y ∷ before, rw e)

mem-keep :
    {A : Type 0} (test : A → Bool) (xs : List A) (x : A)
    → Memᴰ x (keep test xs) ↔ (Memᴰ x xs × (test x ≡ true))
unfolding keep
mem-keep test [] x = (λ m. elim m [ ], λ (m, e). elim m [ ])
mem-keep test (y ∷ ys) x =
    let (into, back) = mem-keep test ys x in
    elim (Bool-cases (test y)) [
      | inl e ↦ rw e (
        λ m. elim m [
          | Memᴰ.head p ↦ (Memᴰ.head p, ap test p ∙ e)
          | Memᴰ.tail n ↦ (Memᴰ.tail (into n).0, (into n).1)
        ],
        λ (m, t). elim m [ Memᴰ.head p ↦ Memᴰ.head p | Memᴰ.tail n ↦ Memᴰ.tail (back (n, t)) ],
      )
      | inr e ↦ rw e (
        λ m. (Memᴰ.tail (into m).0, (into m).1),
        λ (m, t). elim m [
          | Memᴰ.head p ↦ absurd (cc (ap test p, e, t))
          | Memᴰ.tail n ↦ back (n, t)
        ],
      )
    ]

different : (xs ys : List ℕ) → (not (same_text xs ys) ≡ true) ↔ (xs ≢ ys)
different xs ys = elim (Bool-cases (same_text xs ys)) [
  | inl e ↦ (λ h. cc (rw e at h), λ d. absurd (d (same_text-eq xs ys e)))
  | inr e ↦ (λ h same. cc (rw same at e, same_text_refl ys), λ d. rw e refl)
]

module _ (L : Library) where
  -- The chain of the import without the certificate itself.
  abbrev pub IsChain : L.SecCertificate → Import L → List L.SecCertificate → Type 0
  IsChain leaf import chain =
      (c : L.SecCertificate)
      → Memᴰ c chain
        ↔ (Memᴰ c (chain_of L import.cert_chain) × (L.cert_to_der c ≢ L.cert_to_der leaf))

  -- What an identity is of the import it is made from.
  abbrev pub IsImported : Import L → Identity L → Type 0
  IsImported import i =
      (leaf : L.SecCertificate) × (import.identity ≡ some i.identity)
      × (L.identity_certificate i.identity ≡ ok leaf)
      × IsChain leaf import i.chain

  chain_of-IsChain :
      (leaf : L.SecCertificate) (import : Import L)
      → IsChain leaf import (
          keep
            (λ (c : L.SecCertificate). not (same_text (L.cert_to_der c) (L.cert_to_der leaf)))
            (chain_of L import.cert_chain))
  chain_of-IsChain leaf import c =
      let (into, back) = mem-keep _ (chain_of L import.cert_chain) c in
      let (apart, same) = different (L.cert_to_der c) (L.cert_to_der leaf) in
      (λ m. ((into m).0, apart (into m).1), λ (m, d). back (m, same d))

  with_chain-IsImported :
      (import : Import L) (identity : L.SecIdentity) (p : Process L) {p' : Process L}
      {i : Identity L}
      → import.identity ≡ some identity
      → with_chain L identity import.cert_chain p ≡ (p', ok i)
      → IsImported import i
  unfolding with_chain
  with_chain-IsImported import identity p e h =
      let (q, leaf, found, given) = continue-eq-ok (lift (L.identity_certificate identity) p) _ h in
      let same =
        ok-injective (ap (λ (r : Process L × Result L.BaseError (Identity L)). r.1) given) in
      let library = ap (λ (r : Process L × Result L.BaseError L.SecCertificate). r.1) found in
      subst (IsImported import) same (leaf, e, library, chain_of-IsChain leaf import)

  identity_of-IsImported :
      (import : Import L) (identity : Option L.SecIdentity) (p : Process L) {p' : Process L}
      {i : Identity L}
      → import.identity ≡ identity
      → identity_of L identity import.cert_chain p ≡ (p', ok i)
      → IsImported import i
  unfolding identity_of
  identity_of-IsImported import none p e h = cc
  identity_of-IsImported import (some identity) p e h = with_chain-IsImported import identity p e h

  from_last-IsImported :
      (import : Option (Import L)) (p : Process L) {p' : Process L} {i : Identity L}
      → from_last L import p ≡ (p', ok i)
      → (last : Import L) × (import ≡ some last) × IsImported last i
  unfolding from_last
  from_last-IsImported none p h = cc
  from_last-IsImported (some import) p h =
      (import, refl, identity_of-IsImported import import.identity p refl h)

  -- An identity that `from_pkcs12` makes is that of the last import, which has one. Its chain holds
  -- the certificates of the import's chain, but for those with the encoding of its own certificate.
  pub from_pkcs12-IsImported :
      (target : Target) (buf pass : List ℕ) (p : Process L) {p' : Process L} {i : Identity L}
      → from_pkcs12 L target buf pass p ≡ (p', ok i)
      → (q : Process L) × (before : List (Import L)) × (last : Import L) × (import_options L target
            buf pass p
          ≡ (q, ok (before ++ last ∷ [])))
        × IsImported last i
  unfolding from_pkcs12
  from_pkcs12-IsImported target buf pass p h =
      let (q, imports, made, given) = continue-eq-ok (import_options L target buf pass p) _ h in
      let (last, popped, imported) = from_last-IsImported (pop imports) q given in
      let (before, split) = pop-split imports popped in
      (q, before, last, made ∙ ap (λ (is : List (Import L)). (q, ok is)) split, imported)
