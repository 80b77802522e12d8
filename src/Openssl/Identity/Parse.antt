-- ===== src/Openssl/Identity/Parse.antt =====
-- When `Identity::from_pkcs8` and `Identity::from_pkcs12` of src/imp/openssl.rs succeed, and with what.
use mathlib.Core.List.{reverse, reverse-reverse}
use rust_native_tls.Prelude.{ℕ, ◌≡◌, ◌↔◌, true, some, List, [], ◌∷◌, starts_with, ok, err, arith}
use rust_native_tls.Openssl.Library.{Library}
use rust_native_tls.Openssl.Error.{empty_chain}
use rust_native_tls.Openssl.Identity.{Identity, pkcs8_guard, from_pkcs8, from_pkcs12}

module _ (L : Library) where
  -- `from_pkcs8` succeeds exactly when the key has the PKCS#8 header, the library reads it, and it
  -- reads one certificate or more: the first is the leaf and the others, in order, the chain.
  pub from_pkcs8-eq-ok :
      (buf key : List ℕ) (i : Identity L)
      → (from_pkcs8 L buf key ≡ ok i) ↔ (
          (starts_with key pkcs8_guard ≡ true)
          × (L.private_key_from_pem key ≡ ok i.pkey)
          × (L.stack_from_pem buf ≡ ok (i.cert ∷ i.chain)))
  unfolding from_pkcs8
  from_pkcs8-eq-ok buf key i = (λ h. ground arith, λ h. ground arith)

  -- `from_pkcs8` reports that no certificate was given exactly when the key has the PKCS#8 header,
  -- the library reads it, and it reads an empty list of certificates.
  pub from_pkcs8-eq-empty_chain :
      (buf key : List ℕ)
      → (from_pkcs8 L buf key ≡ err empty_chain) ↔ (
          (starts_with key pkcs8_guard ≡ true)
          × ((k : L.PKey) × (L.private_key_from_pem key ≡ ok k))
          × (L.stack_from_pem buf ≡ ok []))
  unfolding from_pkcs8
  from_pkcs8-eq-empty_chain buf key = (λ h. ground arith, λ h. ground arith)

  -- `PKCS12_parse` gives the certificates other than the leaf last one first. An archive with the
  -- chain `certs` thus makes an identity with that chain, in the archive's order.
  pub from_pkcs12-chain :
      (buf pass : List ℕ) (pkcs12 : L.Pkcs12) (pkey : L.PKey) (cert : L.X509) (certs : List L.X509)
      → L.pkcs12_from_der buf ≡ ok pkcs12
      → L.pkcs12_parse pkcs12 pass ≡ ok (pkey, cert, some (reverse certs))
      → from_pkcs12 L buf pass ≡ ok (record { pkey = pkey; cert = cert; chain = certs })
  unfolding from_pkcs12
  from_pkcs12-chain buf pass pkcs12 pkey cert certs h k = ground (arith, reverse-reverse certs)
