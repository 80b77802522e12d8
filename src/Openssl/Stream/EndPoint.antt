-- ===== src/Openssl/Stream/EndPoint.antt =====
-- `tls_server_end_point` and `shutdown` of src/imp/openssl.rs.
use rust_native_tls.Prelude.{
  ℕ, ◌≡◌, refl, ◌↔◌, ◌⊎◌, inl, true, Option, none, some, List, Result, ok, err, panic, arith,
  map_err->>=-eq-ok, Result-cases, if◌then◌else◌,
}
use rust_native_tls.Rfc5929.{Hash, md5, sha1, sha256, Binds}
use rust_native_tls.Openssl.Library.{Library}
use rust_native_tls.Openssl.Error.{normal}
use rust_native_tls.Openssl.Stream.{
  digest_with, digest_by_algorithm, end_point_of, shut_down, binding_digest, tls_server_end_point,
  shutdown,
}

-- The hashes that the library's names stand for.
pub record HashLaws (L : Library) : Type 0 where
  pub hash_of : L.Nid → Option Hash
  pub digest_hash : L.MessageDigest → Hash
  pub nid_eq-md5 : (n : L.Nid) → (L.nid_eq n L.md5 ≡ true) ↔ (hash_of n ≡ some md5)
  pub nid_eq-sha1 : (n : L.Nid) → (L.nid_eq n L.sha1 ≡ true) ↔ (hash_of n ≡ some sha1)
  pub digest_hash-sha256 : digest_hash L.sha256 ≡ sha256
  pub digest_hash-from_nid :
      (n : L.Nid) {d : L.MessageDigest} → L.from_nid n ≡ some d → hash_of n ≡ some (digest_hash d)

module _ (L : Library) (H : HashLaws L) where
  binding_digest-Binds :
      (n : L.Nid) (d : L.MessageDigest)
      → binding_digest L n ≡ some d
      → Binds (H.hash_of n) (H.digest_hash d)
  unfolding binding_digest
  binding_digest-Binds n d b = ground (
    arith,
    H.nid_eq-md5 n,
    H.nid_eq-sha1 n,
    H.digest_hash-sha256,
    H.digest_hash-from_nid n {d = d},
  )

  -- `binding` is the digest of `cert` by the hash that its signature calls for.
  abbrev pub IsBinding : L.X509 → List ℕ → Type 0
  IsBinding cert binding =
      (n : L.Nid) × (d : L.MessageDigest) × (L.signature_digest (L.signature_algorithm cert)
        ≡ some n)
      × (L.x509_digest cert d ≡ ok binding)
      × Binds (H.hash_of n) (H.digest_hash d)

  digest_with-IsBinding :
      (cert : L.X509) (d : Option L.MessageDigest) (n : L.Nid) {binding : List ℕ}
      → L.signature_digest (L.signature_algorithm cert) ≡ some n
      → binding_digest L n ≡ d
      → digest_with L cert d ≡ ok (some binding)
      → IsBinding cert binding
  unfolding digest_with
  digest_with-IsBinding cert none n a b e = cc
  digest_with-IsBinding cert (some d) n a b e =
      let (digest, made, same) = map_err->>=-eq-ok normal (L.x509_digest cert d) _ e in
      (n, d, a, cc (made, same), binding_digest-Binds n d b)

  digest_by_algorithm-IsBinding :
      (cert : L.X509) (n : Option L.Nid) {binding : List ℕ}
      → L.signature_digest (L.signature_algorithm cert) ≡ n
      → digest_by_algorithm L cert n ≡ ok (some binding)
      → IsBinding cert binding
  unfolding digest_by_algorithm
  digest_by_algorithm-IsBinding cert none a e = cc
  digest_by_algorithm-IsBinding cert (some n) a e =
      digest_with-IsBinding cert (binding_digest L n) n a refl e

  end_point_of-IsBinding :
      (c : Option L.X509) {binding : List ℕ}
      → end_point_of L c ≡ ok (some binding)
      → (cert : L.X509) × (c ≡ some cert) × IsBinding cert binding
  unfolding end_point_of
  end_point_of-IsBinding none e = cc
  end_point_of-IsBinding (some cert) e = (cert, refl, digest_by_algorithm-IsBinding cert _ refl e)

  -- A channel binding is the digest of the server's certificate, the stream's own on the server
  -- and the peer's on the client, by the hash that RFC 5929 prescribes for the hash of the
  -- certificate's signature.
  pub tls_server_end_point_lem :
      (s : L.SslStream) {binding : List ℕ}
      → tls_server_end_point L s ≡ ok (some binding)
      → (cert : L.X509) × ((if L.is_server s then L.certificate s else L.peer_certificate s)
          ≡ some cert)
        × IsBinding cert binding
  unfolding tls_server_end_point
  tls_server_end_point_lem s e = end_point_of-IsBinding _ e

module _ (L : Library) where
  -- A failure of the library's `shutdown` that is the peer's orderly close.
  abbrev pub IsClosed : Result L.SslError (Unit {0}) → Type 0
  IsClosed (ok u) = ⊥
  IsClosed (err e) = L.code_eq (L.error_code e) L.zero_return ≡ true
  IsClosed panic = ⊥

  shut_down-eq-ok :
      (r : Result L.SslError (Unit {0})) → (shut_down L r ≡ ok tt) ↔ ((r ≡ ok tt) ⊎ IsClosed r)
  unfolding shut_down
  shut_down-eq-ok (ok u) = (λ h. inl refl, λ h. refl)
  shut_down-eq-ok (err e) =
      (λ h. ground (arith, Result-cases (L.into_io_error e)), λ h. ground arith)
  shut_down-eq-ok panic = (λ h. cc, λ h. ground arith)

  -- `shutdown` succeeds exactly when the library's does or fails by the peer's orderly close.
  pub shutdown-eq-ok :
      (s : L.SslStream)
      → ((shutdown L s).1 ≡ ok tt) ↔ (((L.shutdown s).1 ≡ ok tt) ⊎ IsClosed (L.shutdown s).1)
  unfolding shutdown
  shutdown-eq-ok s = shut_down-eq-ok (L.shutdown s).1
