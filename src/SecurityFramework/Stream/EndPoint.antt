-- ===== src/SecurityFramework/Stream/EndPoint.antt =====
-- `tls_server_end_point` of src/imp/security_framework.rs against RFC 5929.
use rust_native_tls.Prelude.{
  ℕ, ◌^◌, ◌<◌, ◌≡◌, refl, ap, ◌∙◌, ◌⊎◌, inl, inr, Option, none, some, List, length, ok, >>=-eq-ok,
}
use rust_native_tls.Rfc5929.{Hash, binding_hash}
use rust_native_tls.SecurityFramework.Library.{Library}
use rust_native_tls.SecurityFramework.Process.{Target, macos, ios}
use rust_native_tls.SecurityFramework.Connector.{TlsStream}
use rust_native_tls.SecurityFramework.Digest.{
  Digest, digest, hash, digest_of_property, signature_property,
}
use rust_native_tls.SecurityFramework.Digest.Oids.{Names, hash_of, digest_of_lem}
use rust_native_tls.SecurityFramework.Stream.{
  peer_certificate, end_point_certificate, hash_with, end_point_of, tls_server_end_point,
}
use rust_native_tls.SecurityFramework.Digest.Algorithm.{
  HasAlgorithm, digest_of_property-HasAlgorithm, hash-eq-ok,
}

module _ (L : Library) where
  -- The binding is the digest of all the bytes of the certificate.
  abbrev IsDigest : L.SecCertificate → Digest → List ℕ → Type 0
  IsDigest cert d binding =
      (length (L.cert_to_der cert) < 2 ^ 32)
      × (binding ≡ digest L d (L.cert_to_der cert) (length (L.cert_to_der cert)))

  -- The binding is such a digest, the one for the certificate's signature algorithm.
  abbrev pub IsBinding : L.SecCertificate → List ℕ → Type 0
  IsBinding cert binding =
      (text : List ℕ) × (h : Hash) × (d : Digest) × HasAlgorithm L cert text
      × Names text h
      × (hash_of d ≡ binding_hash h)
      × IsDigest cert d binding

  hash_with-IsDigest :
      (cert : L.SecCertificate) (d : Option Digest) {binding : List ℕ}
      → hash_with L cert d ≡ ok (some binding)
      → (used : Digest) × (d ≡ some used) × IsDigest cert used binding
  unfolding hash_with
  hash_with-IsDigest cert none h = cc
  hash_with-IsDigest cert (some d) h =
      let (made, hashed, same) = >>=-eq-ok (hash L d (L.cert_to_der cert)) _ h in
      let (small, whole) = hash-eq-ok L d (L.cert_to_der cert) hashed in
      (d, refl, (small, cc (same, whole)))

  end_point_of-IsBinding :
      (c : Option L.SecCertificate) {binding : List ℕ}
      → end_point_of L c ≡ ok (some binding)
      → (cert : L.SecCertificate) × (c ≡ some cert) × IsBinding cert binding
  unfolding end_point_of
  end_point_of-IsBinding none h = cc
  end_point_of-IsBinding (some cert) h =
      let (property, read, rest) = >>=-eq-ok (signature_property L (L.properties cert)) _ h in
      let (d, found, made) = hash_with-IsDigest cert (digest_of_property L property) rest in
      let (text, has, digested) =
        digest_of_property-HasAlgorithm L cert (L.properties cert) refl read found in
      let (hash, names, binds) = (digest_of_lem text d).0 digested in
      (cert, refl, (text, hash, d, has, names, binds, made))

  -- The certificate is the stream's own, or else that of the peer.
  abbrev pub IsEndPoint : TlsStream L → L.SecCertificate → Type 0
  IsEndPoint s cert =
      (s.cert ≡ some cert) ⊎ ((s.cert ≡ none) × (peer_certificate L s ≡ ok (some cert)))

  end_point_certificate-IsEndPoint :
      (s : TlsStream L) (own : Option L.SecCertificate) {cert : L.SecCertificate}
      → s.cert ≡ own
      → end_point_certificate L s own ≡ ok (some cert)
      → IsEndPoint s cert
  unfolding end_point_certificate
  end_point_certificate-IsEndPoint s none e h = inr (e, h)
  end_point_certificate-IsEndPoint s (some cert) e h = inl (cc (e, h))

  -- A channel binding is the digest of the whole encoding of the server's certificate, the stream's
  -- own on the server and the peer's on the client, which is shorter than 2^32 bytes. The digest is
  -- the one that RFC 5929 prescribes for the hash that the signature algorithm of the certificate
  -- names.
  pub tls_server_end_point-IsBinding :
      (target : Target) (s : TlsStream L) {binding : List ℕ}
      → tls_server_end_point L target s ≡ ok (some binding)
      → (cert : L.SecCertificate) × IsEndPoint s cert × IsBinding cert binding
  unfolding tls_server_end_point
  tls_server_end_point-IsBinding ios s h = cc
  tls_server_end_point-IsBinding macos s h =
      let (c, read, rest) = >>=-eq-ok (end_point_certificate L s s.cert) _ h in
      let (cert, found, made) = end_point_of-IsBinding c rest in
      (cert, end_point_certificate-IsEndPoint s s.cert refl (read ∙ ap ok found), made)
