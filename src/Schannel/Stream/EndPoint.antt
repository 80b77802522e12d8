-- ===== src/Schannel/Stream/EndPoint.antt =====
-- `tls_server_end_point` and `peer_certificate` of src/imp/schannel.rs.
use rust_native_tls.Prelude.{
  same_text, same_text-eq, ℕ, ◌≡◌, refl, ap, ◌∙◌, ◌↔◌, ◌⊎◌, inl, inr, true, Bool-cases, Option,
  none, some, Option-cases, List, [], ◌∷◌, ◌++◌, codes, ok, err, panic, arith, ◌==◌, >>=-eq-ok,
  if◌then◌else◌, raw_os_error,
}
use rust_native_tls.Rfc5929.{Hash, md5, sha1, sha224, sha256, sha384, sha512, binding_hash}
use rust_native_tls.Schannel.Library
use rust_native_tls.Schannel.Library.{Io, Fallible, HashAlgorithm}
use rust_native_tls.Schannel.Stream.{
  sec_e_no_credentials, has_code, is_no_credentials, or_none, slash, after_slash, last_segment,
  binding_algorithm, fingerprint_with, end_point_of, tls_server_end_point, peer_certificate,
}

-- The name that SChannel gives a hash.
abbrev pub name_of : Hash → List ℕ
name_of md5 = codes "MD5"
name_of sha1 = codes "SHA1"
name_of sha224 = codes "SHA224"
name_of sha256 = codes "SHA256"
name_of sha384 = codes "SHA384"
name_of sha512 = codes "SHA512"

abbrev pub hash_of : HashAlgorithm → Hash
hash_of Library.sha256 = sha256
hash_of Library.sha384 = sha384
hash_of Library.sha512 = sha512

-- The text is the name, or ends with it after a slash.
abbrev pub EndsWith : List ℕ → List ℕ → Type 0
EndsWith text name = (text ≡ name) ⊎ ((before : List ℕ) × (text ≡ before ++ slash ∷ name))

after_slash-split :
    (text end : List ℕ)
    → after_slash text ≡ some end
    → (before : List ℕ) × (text ≡ before ++ slash ∷ end)
unfolding after_slash
after_slash-split [] end h = cc
after_slash-split (x ∷ xs) end h = elim (Option-cases (after_slash xs)) [
  | inl e ↦ elim (Bool-cases (x == slash)) [ inl f ↦ ([], ground arith) | inr f ↦ ground arith ]
  | inr (rest, e) ↦ let (before, same) = after_slash-split xs rest e in (x ∷ before, ground arith)
]

last_segment-EndsWith : (text : List ℕ) → EndsWith text (last_segment text)
unfolding last_segment
last_segment-EndsWith text = elim (Option-cases (after_slash text)) [
  | inl e ↦ inl (rw e)
  | inr (end, e) ↦ inr (rw e (after_slash-split text end e))
]

binding_algorithm-named :
    (name : List ℕ) {algorithm : HashAlgorithm}
    → binding_algorithm name ≡ some algorithm
    → (h : Hash) × (name ≡ name_of h) × (hash_of algorithm ≡ binding_hash h)
unfolding binding_algorithm
binding_algorithm-named name h = elim (Bool-cases (same_text name (name_of md5))) [
  | inl e ↦ (md5, same_text-eq name _ e, ground arith)
  | inr e₁ ↦ elim (Bool-cases (same_text name (name_of sha1))) [
    | inl e ↦ (sha1, same_text-eq name _ e, ground arith)
    | inr e₂ ↦ elim (Bool-cases (same_text name (name_of sha256))) [
      | inl e ↦ (sha256, same_text-eq name _ e, ground arith)
      | inr e₃ ↦ elim (Bool-cases (same_text name (name_of sha384))) [
        | inl e ↦ (sha384, same_text-eq name _ e, ground arith)
        | inr e₄ ↦ elim (Bool-cases (same_text name (name_of sha512))) [
          | inl e ↦ (sha512, same_text-eq name _ e, ground arith)
          | inr e₅ ↦ ground arith
        ]
      ]
    ]
  ]
]

module _ (L : Library.Library) where
  -- `binding` is the fingerprint of `cert` by the hash that its signature's hash calls for.
  abbrev pub IsFingerprint : L.CertContext → List ℕ → Type 0
  IsFingerprint cert binding =
      (text : List ℕ) × (h : Hash) × (algorithm : HashAlgorithm) × (L.sign_hash_algorithms cert
        ≡ ok text)
      × EndsWith text (name_of h)
      × (hash_of algorithm ≡ binding_hash h)
      × (L.fingerprint cert algorithm ≡ ok binding)

  fingerprint_with-eq-ok :
      (cert : L.CertContext) (text name : List ℕ) (a : Option HashAlgorithm) {binding : List ℕ}
      → L.sign_hash_algorithms cert ≡ ok text
      → EndsWith text name
      → binding_algorithm name ≡ a
      → fingerprint_with L cert a ≡ ok (some binding)
      → IsFingerprint cert binding
  unfolding fingerprint_with
  fingerprint_with-eq-ok cert text name none t e b h = cc
  fingerprint_with-eq-ok cert text name (some algorithm) t e b h =
      let (digest, made, same) = >>=-eq-ok (L.fingerprint cert algorithm) _ h in
      let (hash, named, binds) = binding_algorithm-named name b in
      (text, hash, algorithm, t, rw (← named) e, binds, cc (made, same))

  end_point_of-IsFingerprint :
      (c : Option L.CertContext) {binding : List ℕ}
      → end_point_of L c ≡ ok (some binding)
      → (cert : L.CertContext) × (c ≡ some cert) × IsFingerprint cert binding
  unfolding end_point_of
  end_point_of-IsFingerprint none h = cc
  end_point_of-IsFingerprint (some cert) h =
      let (text, read, rest) = >>=-eq-ok (L.sign_hash_algorithms cert) _ h in
      (
        cert,
        refl,
        fingerprint_with-eq-ok cert text (last_segment text) _ read (last_segment-EndsWith text)
            refl rest,
      )

  or_none-eq-some : {C : Type 0} (r : Fallible C) {c : C} → or_none r ≡ ok (some c) → r ≡ ok c
  unfolding or_none
  or_none-eq-some r h = ground arith

  has_code-eq-some : (c : Option ℕ) → has_code c ≡ true → c ≡ some sec_e_no_credentials
  has_code-eq-some none h = cc
  has_code-eq-some (some code) h = ground arith

  is_no_credentials-eq-true :
      (e : Io) → is_no_credentials e ≡ true → raw_os_error e ≡ some sec_e_no_credentials
  unfolding is_no_credentials
  is_no_credentials-eq-true e h = has_code-eq-some (raw_os_error e) h

  is_no_credentials-of :
      (e : Io) → raw_os_error e ≡ some sec_e_no_credentials → is_no_credentials e ≡ true
  unfolding is_no_credentials
  is_no_credentials-of e h = rw h

  or_none-eq-none :
      {C : Type 0} (r : Fallible C)
      → (or_none r ≡ ok none)
        ↔ ((e : Io) × (r ≡ err e) × (raw_os_error e ≡ some sec_e_no_credentials))
  unfolding or_none
  or_none-eq-none (ok c) = (λ h. cc, λ (e, same, code). cc same)
  or_none-eq-none panic = (λ h. cc, λ (e, same, code). cc same)
  or_none-eq-none (err e) = (
    λ h. elim (Bool-cases (is_no_credentials e)) [
      | inl b ↦ (e, refl, is_no_credentials-eq-true e b)
      | inr b ↦ cc (rw b at h)
    ],
    λ (e', same, code). ground (arith, is_no_credentials-of e),
  )

  -- A channel binding is the fingerprint of the server's certificate, the stream's own on the
  -- server and the peer's on the client, by the hash that RFC 5929 prescribes for the hash
  -- which the name of the certificate's signature algorithm ends with.
  pub tls_server_end_point-IsFingerprint :
      (s : L.TlsStream) {binding : List ℕ}
      → tls_server_end_point L s ≡ ok (some binding)
      → (cert : L.CertContext) × ((if L.is_server s then L.certificate s else L.peer_certificate s)
          ≡ ok cert)
        × IsFingerprint cert binding
  unfolding tls_server_end_point
  tls_server_end_point-IsFingerprint s h =
      let (c, read, rest) =
        >>=-eq-ok (or_none (if L.is_server s then L.certificate s else L.peer_certificate s)) _ h in
      let (cert, found, made) = end_point_of-IsFingerprint c rest in
      (cert, or_none-eq-some _ (read ∙ ap ok found), made)

  -- `peer_certificate` reports that there is none exactly when the library fails with the error
  -- code SEC_E_NO_CREDENTIALS.
  pub peer_certificate-eq-none :
      (s : L.TlsStream)
      → (peer_certificate L s ≡ ok none)
        ↔ ((e : Io) × (L.peer_certificate s ≡ err e) × (raw_os_error e ≡ some sec_e_no_credentials))
  unfolding peer_certificate
  peer_certificate-eq-none s = or_none-eq-none (L.peer_certificate s)
