-- ===== src/SecurityFramework/Digest/Oids.antt =====
-- The object identifiers that `tls_server_end_point` of src/imp/security_framework.rs compares with,
-- as arcs.
use mathlib.Core.List.{Memᴰ}
use rust_native_tls.Prelude.{
  ℕ, ◌≡◌, refl, ap, sym, subst, arith, ◌∙◌, ◌↔◌, true, Bool-cases, inl, inr, some, List, [], ◌∷◌,
  ◌++◌, map, All, decimal, same_text, same_text-eq,
}
use rust_native_tls.Rfc5929
use rust_native_tls.Rfc5929.{Hash, binding_hash}
use rust_native_tls.SecurityFramework.Digest.{
  Digest, sha224, sha256, sha384, sha512, one_of, digest_of, md5_arm, sha1_arm, sha224_arm,
  sha256_arm, sha384_arm, sha512_arm,
}

abbrev pub Oid : Type 0
Oid = List ℕ

-- The arcs in decimal, with points between them.
pub dotted : Oid → List ℕ
unfolding decimal
dotted [] = []
dotted (n ∷ []) = decimal n
dotted (n ∷ m ∷ rest) = decimal n ++ b'.' ∷ dotted (m ∷ rest)

-- Signatures of PKCS#1, of the OIW and with ECDSA and a hash of SHA-2, and hashes of NIST.
abbrev pkcs1 : ℕ → Oid
pkcs1 n = 1 ∷ 2 ∷ 840 ∷ 113549 ∷ 1 ∷ 1 ∷ n ∷ []

abbrev oiw : ℕ → Oid
oiw n = 1 ∷ 3 ∷ 14 ∷ 3 ∷ 2 ∷ n ∷ []

abbrev ecdsa : ℕ → Oid
ecdsa n = 1 ∷ 2 ∷ 840 ∷ 10045 ∷ 4 ∷ 3 ∷ n ∷ []

abbrev nist : ℕ → Oid
nist n = 2 ∷ 16 ∷ 840 ∷ 1 ∷ 101 ∷ 3 ∷ 4 ∷ 2 ∷ n ∷ []

-- The object identifiers of a hash and of the signatures with it.
abbrev pub oids : Hash → List Oid
oids Rfc5929.md5 = (1 ∷ 2 ∷ 840 ∷ 113549 ∷ 2 ∷ 5 ∷ []) ∷ pkcs1 4 ∷ oiw 3 ∷ []
oids Rfc5929.sha1 =
    oiw 26
    ∷ oiw 15
    ∷ pkcs1 5
    ∷ oiw 29
    ∷ (1 ∷ 2 ∷ 840 ∷ 10040 ∷ 4 ∷ 3 ∷ [])
    ∷ oiw 13
    ∷ (1 ∷ 2 ∷ 840 ∷ 10045 ∷ 4 ∷ 1 ∷ [])
    ∷ []
oids Rfc5929.sha224 =
    nist 4 ∷ pkcs1 14 ∷ (2 ∷ 16 ∷ 840 ∷ 1 ∷ 101 ∷ 3 ∷ 4 ∷ 3 ∷ 1 ∷ []) ∷ ecdsa 1 ∷ []
oids Rfc5929.sha256 = nist 1 ∷ pkcs1 11 ∷ ecdsa 2 ∷ []
oids Rfc5929.sha384 = nist 2 ∷ pkcs1 12 ∷ ecdsa 3 ∷ []
oids Rfc5929.sha512 = nist 3 ∷ pkcs1 13 ∷ ecdsa 4 ∷ []

abbrev pub hash_of : Digest → Hash
hash_of sha224 = Rfc5929.sha224
hash_of sha256 = Rfc5929.sha256
hash_of sha384 = Rfc5929.sha384
hash_of sha512 = Rfc5929.sha512

-- The arms name those object identifiers.
arms :
    (md5_arm ≡ map dotted (oids Rfc5929.md5))
    × (sha1_arm ≡ map dotted (oids Rfc5929.sha1))
    × (sha224_arm ≡ map dotted (oids Rfc5929.sha224))
    × (sha256_arm ≡ map dotted (oids Rfc5929.sha256))
    × (sha384_arm ≡ map dotted (oids Rfc5929.sha384))
    × (sha512_arm ≡ map dotted (oids Rfc5929.sha512))
unfolding dotted
arms = (refl, refl, refl, refl, refl, refl)

one_of-map :
    (text : List ℕ) (os : List Oid)
    → one_of text (map dotted os) ≡ true
    → (oid : Oid) × Memᴰ oid os × (text ≡ dotted oid)
unfolding one_of
one_of-map text [] h = cc
one_of-map text (o ∷ os) h = elim (Bool-cases (same_text text (dotted o))) [
  | inl e ↦ (o, Memᴰ.head refl, same_text-eq text (dotted o) e)
  | inr e ↦ let (oid, m, same) = one_of-map text os (rw e at h) in (oid, Memᴰ.tail m, same)
]

-- The text is that of an object identifier of the hash.
abbrev pub Names : List ℕ → Hash → Type 0
Names text h = (oid : Oid) × Memᴰ oid (oids h) × (text ≡ dotted oid)

-- The arm is that of the hash.
named :
    (text : List ℕ) (h : Hash) (arm : List (List ℕ))
    → arm ≡ map dotted (oids h)
    → one_of text arm ≡ true
    → Names text h
named text h arm e m = one_of-map text (oids h) (rw e at m)

all_of : {A : Type 0} (P : A → Type 0) (xs : List A) → All P xs → (x : A) → Memᴰ x xs → P x
all_of P [] p x m = elim m [ ]
all_of P (y ∷ ys) (p, ps) x (Memᴰ.head e) = subst P (sym e) p
all_of P (y ∷ ys) (p, ps) x (Memᴰ.tail m) = all_of P ys ps x m

abbrev Digested : Digest → Oid → Type 0
Digested d oid = digest_of (dotted oid) ≡ some d

digest_for : Hash → Digest
digest_for Rfc5929.md5 = sha256
digest_for Rfc5929.sha1 = sha256
digest_for Rfc5929.sha224 = sha224
digest_for Rfc5929.sha256 = sha256
digest_for Rfc5929.sha384 = sha384
digest_for Rfc5929.sha512 = sha512

oids-Digested : (h : Hash) → All (Digested (digest_for h)) (oids h)
unfolding digest_of one_of dotted digest_for same_text
oids-Digested Rfc5929.md5 = (refl, (refl, (refl, tt)))
oids-Digested Rfc5929.sha1 = (refl, (refl, (refl, (refl, (refl, (refl, (refl, tt)))))))
oids-Digested Rfc5929.sha224 = (refl, (refl, (refl, (refl, tt))))
oids-Digested Rfc5929.sha256 = (refl, (refl, (refl, tt)))
oids-Digested Rfc5929.sha384 = (refl, (refl, (refl, tt)))
oids-Digested Rfc5929.sha512 = (refl, (refl, (refl, tt)))

digest_for-hash_of : (d : Digest) → digest_for (hash_of d) ≡ d
unfolding digest_for
digest_for-hash_of sha224 = refl
digest_for-hash_of sha256 = refl
digest_for-hash_of sha384 = refl
digest_for-hash_of sha512 = refl

digest_for-binding_hash : (h : Hash) → digest_for (binding_hash h) ≡ digest_for h
unfolding digest_for
digest_for-binding_hash Rfc5929.md5 = refl
digest_for-binding_hash Rfc5929.sha1 = refl
digest_for-binding_hash Rfc5929.sha224 = refl
digest_for-binding_hash Rfc5929.sha256 = refl
digest_for-binding_hash Rfc5929.sha384 = refl
digest_for-binding_hash Rfc5929.sha512 = refl

digest_of-named :
    (text : List ℕ) {d : Digest}
    → digest_of text ≡ some d
    → (h : Hash) × Names text h × (hash_of d ≡ binding_hash h)
unfolding digest_of
digest_of-named text h =
    let (a1, a2, a3, a4, a5, a6) = arms in
    elim (Bool-cases (one_of text md5_arm)) [
      | inl e ↦ (Rfc5929.md5, named text Rfc5929.md5 _ a1 e, ground arith)
      | inr e₁ ↦ elim (Bool-cases (one_of text sha1_arm)) [
        | inl e ↦ (Rfc5929.sha1, named text Rfc5929.sha1 _ a2 e, ground arith)
        | inr e₂ ↦ elim (Bool-cases (one_of text sha224_arm)) [
          | inl e ↦ (Rfc5929.sha224, named text Rfc5929.sha224 _ a3 e, ground arith)
          | inr e₃ ↦ elim (Bool-cases (one_of text sha256_arm)) [
            | inl e ↦ (Rfc5929.sha256, named text Rfc5929.sha256 _ a4 e, ground arith)
            | inr e₄ ↦ elim (Bool-cases (one_of text sha384_arm)) [
              | inl e ↦ (Rfc5929.sha384, named text Rfc5929.sha384 _ a5 e, ground arith)
              | inr e₅ ↦ elim (Bool-cases (one_of text sha512_arm)) [
                | inl e ↦ (Rfc5929.sha512, named text Rfc5929.sha512 _ a6 e, ground arith)
                | inr e₆ ↦ ground arith
              ]
            ]
          ]
        ]
      ]
    ]

-- A digest is taken exactly for the object identifiers of a known hash and its signatures, and it
-- is the one that RFC 5929 prescribes for that hash.
pub digest_of_lem :
    (text : List ℕ) (d : Digest)
    → (digest_of text ≡ some d) ↔ ((h : Hash) × Names text h × (hash_of d ≡ binding_hash h))
digest_of_lem text d = (
  digest_of-named text,
  λ (h, (oid, m, same), e).
      ap digest_of same
      ∙ all_of (Digested (digest_for h)) (oids h) (oids-Digested h) oid m
      ∙ ap some (sym (digest_for-binding_hash h) ∙ ap digest_for (sym e) ∙ digest_for-hash_of d),
)
