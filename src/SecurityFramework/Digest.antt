-- ===== src/SecurityFramework/Digest.antt =====
-- `Digest` of src/imp/security_framework.rs, and the digest that `tls_server_end_point` takes for a
-- certificate's signature algorithm.
pub mod Oids
pub mod Algorithm
use rust_native_tls.Prelude.{
  zeros, ℕ, zero, suc, ◌-◌, ◌%◌, ◌^◌, Bool, true, false, Option, none, some, List, [], ◌∷◌, codes,
  keep, same_text, length, leb, Result, ok, err, panic, if◌then◌else◌,
}
use rust_native_tls.SecurityFramework.Library.{PropertyType, section, string, other, Library}

pub data Digest : Type 0 where
  sha224 sha256 sha384 sha512 : Digest

unfoldable pub one_of : List ℕ → List (List ℕ) → Bool
one_of text [] = false
one_of text (x ∷ xs) = if same_text text x then true else one_of text xs

-- The arms of `match &*algorithm.to_string()`.
abbrev pub md5_arm : List (List ℕ)
md5_arm = codes "1.2.840.113549.2.5" ∷ codes "1.2.840.113549.1.1.4" ∷ codes "1.3.14.3.2.3" ∷ []

abbrev pub sha1_arm : List (List ℕ)
sha1_arm =
    codes "1.3.14.3.2.26"
    ∷ codes "1.3.14.3.2.15"
    ∷ codes "1.2.840.113549.1.1.5"
    ∷ codes "1.3.14.3.2.29"
    ∷ codes "1.2.840.10040.4.3"
    ∷ codes "1.3.14.3.2.13"
    ∷ codes "1.2.840.10045.4.1"
    ∷ []

abbrev pub sha224_arm : List (List ℕ)
sha224_arm =
    codes "2.16.840.1.101.3.4.2.4"
    ∷ codes "1.2.840.113549.1.1.14"
    ∷ codes "2.16.840.1.101.3.4.3.1"
    ∷ codes "1.2.840.10045.4.3.1"
    ∷ []

abbrev pub sha256_arm : List (List ℕ)
sha256_arm =
    codes "2.16.840.1.101.3.4.2.1"
    ∷ codes "1.2.840.113549.1.1.11"
    ∷ codes "1.2.840.10045.4.3.2"
    ∷ []

abbrev pub sha384_arm : List (List ℕ)
sha384_arm =
    codes "2.16.840.1.101.3.4.2.2"
    ∷ codes "1.2.840.113549.1.1.12"
    ∷ codes "1.2.840.10045.4.3.3"
    ∷ []

abbrev pub sha512_arm : List (List ℕ)
sha512_arm =
    codes "2.16.840.1.101.3.4.2.3"
    ∷ codes "1.2.840.113549.1.1.13"
    ∷ codes "1.2.840.10045.4.3.4"
    ∷ []

unfoldable pub digest_of : List ℕ → Option Digest
unfolding one_of
digest_of oid =
    if one_of oid md5_arm
    then some sha256
    else if one_of oid sha1_arm
    then some sha256
    else if one_of oid sha224_arm
    then some sha224
    else if one_of oid sha256_arm
    then some sha256
    else if one_of oid sha384_arm
    then some sha384
    else if one_of oid sha512_arm
    then some sha512
    else none

-- `iter.next()`
abbrev pub next : {A : Type 0} → List A → Option A
next [] = none
next (x ∷ xs) = some x

-- `CC_SHA224_DIGEST_LENGTH` and the others, in bytes.
abbrev cc_sha224_digest_length : ℕ
cc_sha224_digest_length = 28

abbrev cc_sha256_digest_length : ℕ
cc_sha256_digest_length = 32

abbrev cc_sha384_digest_length : ℕ
cc_sha384_digest_length = 48

abbrev cc_sha512_digest_length : ℕ
cc_sha512_digest_length = 64

module _ (L : Library) where
  open L use {Property, property_get}

  -- The buffer after the call for each digest, by the length the call is given.
  unfoldable pub digest : Digest → List ℕ → ℕ → List ℕ
  digest sha224 bytes n = L.cc_sha224 bytes n (zeros cc_sha224_digest_length)
  digest sha256 bytes n = L.cc_sha256 bytes n (zeros cc_sha256_digest_length)
  digest sha384 bytes n = L.cc_sha384 bytes n (zeros cc_sha384_digest_length)
  digest sha512 bytes n = L.cc_sha512 bytes n (zeros cc_sha512_digest_length)

  -- `as CC_LONG` wraps, `assert!` panics.
  unfoldable pub hash : Digest → List ℕ → Result L.BaseError (List ℕ)
  unfolding digest
  hash self bytes =
      if leb (length bytes) (2 ^ 32 - 1)
      then ok (digest self bytes (length bytes % 2 ^ 32))
      else panic

  abbrev pub is_algorithm : Property → Bool
  is_algorithm p = same_text (L.label p) (codes "Algorithm")

  -- The matches from the algorithm to the property, each on what the one after it finds.
  digest_of_string : PropertyType Property → Option Digest
  digest_of_string (string algorithm) = digest_of algorithm
  digest_of_string (section ps) = none
  digest_of_string other = none

  digest_of_algorithm : Option Property → Option Digest
  unfolding digest_of_string
  digest_of_algorithm none = none
  digest_of_algorithm (some algorithm) = digest_of_string (property_get algorithm)

  digest_of_section : PropertyType Property → Option Digest
  unfolding digest_of_algorithm keep
  digest_of_section (section ps) = digest_of_algorithm (next (keep is_algorithm ps))
  digest_of_section (string text) = none
  digest_of_section other = none

  unfoldable pub digest_of_property : Option Property → Option Digest
  unfolding digest_of_section
  digest_of_property none = none
  digest_of_property (some property) = digest_of_section (property_get property)

  -- `cert.properties(...).ok().and_then(...)`
  unfoldable pub signature_property :
      Result L.BaseError L.CertificateProperties → Result L.BaseError (Option Property)
  signature_property (ok properties) = ok (L.signature_algorithm properties)
  signature_property (err e) = ok none
  signature_property panic = panic
