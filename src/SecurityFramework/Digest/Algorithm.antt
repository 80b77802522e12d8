-- ===== src/SecurityFramework/Digest/Algorithm.antt =====
-- How `tls_server_end_point` of src/imp/security_framework.rs comes from a certificate to a digest.
use rust_native_tls.Prelude.{
  ℕ, ◌^◌, ◌%◌, ◌<◌, ◌≡◌, refl, ap, Option, none, some, List, keep, length, Result, ok, err, panic,
  arith,
}
use rust_native_tls.SecurityFramework.Library.{PropertyType, section, string, other, Library}
use rust_native_tls.SecurityFramework.Digest.{
  Digest, digest, hash, next, is_algorithm, digest_of, digest_of_property, digest_of_section,
  digest_of_algorithm, digest_of_string, signature_property,
}

module _ (L : Library) where
  -- The text is the string of the first property named Algorithm in the section that describes the
  -- signature of the certificate.
  abbrev pub HasAlgorithm : L.SecCertificate → List ℕ → Type 0
  HasAlgorithm cert text =
      (properties : L.CertificateProperties) × (signature : L.Property) × (parts : List L.Property)
      × (algorithm : L.Property) × (L.properties cert ≡ ok properties)
      × (L.signature_algorithm properties ≡ some signature)
      × (L.property_get signature ≡ section parts)
      × (next (keep (is_algorithm L) parts) ≡ some algorithm)
      × (L.property_get algorithm ≡ string text)

  string_of :
      (t : PropertyType L.Property) {d : Digest}
      → digest_of_string L t ≡ some d
      → (text : List ℕ) × (t ≡ string text) × (digest_of text ≡ some d)
  unfolding digest_of_string
  string_of (string text) h = (text, refl, h)
  string_of (section ps) h = cc
  string_of other h = cc

  algorithm_of :
      (p : Option L.Property) {d : Digest}
      → digest_of_algorithm L p ≡ some d
      → (algorithm : L.Property) × (text : List ℕ) × (p ≡ some algorithm)
        × (L.property_get algorithm ≡ string text)
        × (digest_of text ≡ some d)
  unfolding digest_of_algorithm
  algorithm_of none h = cc
  algorithm_of (some p) h =
      let (text, e, found) = string_of (L.property_get p) h in (p, text, refl, e, found)

  section_of :
      (t : PropertyType L.Property) {d : Digest}
      → digest_of_section L t ≡ some d
      → (parts : List L.Property) × (t ≡ section parts)
        × (digest_of_algorithm L (next (keep (is_algorithm L) parts)) ≡ some d)
  unfolding digest_of_section
  section_of (section parts) h = (parts, refl, h)
  section_of (string text) h = cc
  section_of other h = cc

  pub digest_of_property-HasAlgorithm :
      (cert : L.SecCertificate) (found : Result L.BaseError L.CertificateProperties)
      {p : Option L.Property} {d : Digest}
      → L.properties cert ≡ found
      → signature_property L found ≡ ok p
      → digest_of_property L p ≡ some d
      → (text : List ℕ) × HasAlgorithm cert text × (digest_of text ≡ some d)
  unfolding signature_property digest_of_property
  digest_of_property-HasAlgorithm cert (ok properties) {p = none} e f h = cc
  digest_of_property-HasAlgorithm cert (ok properties) {p = some signature} e f h =
      let (parts, is_section, rest) = section_of (L.property_get signature) h in
      let (algorithm, text, first, is_string, made) = algorithm_of _ rest in
      (text, (properties, signature, parts, algorithm, e, cc f, is_section, first, is_string), made)
  digest_of_property-HasAlgorithm cert (err x) e f h = cc (f, h)
  digest_of_property-HasAlgorithm cert panic e f h = cc

  -- The assertion on the length, and the digest of all the bytes.
  pub hash-eq-ok :
      (d : Digest) (bytes : List ℕ) {binding : List ℕ}
      → hash L d bytes ≡ ok binding
      → (length bytes < 2 ^ 32) × (binding ≡ digest L d bytes (length bytes))
  unfolding hash
  hash-eq-ok d bytes h =
      let small : length bytes < 2 ^ 32 = ground arith in
      let whole : length bytes % 2 ^ 32 ≡ length bytes = omega (arith, small) in
      (small, ground (arith, ap (digest L d bytes) whole))
