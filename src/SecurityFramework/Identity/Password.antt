-- ===== src/SecurityFramework/Identity/Password.antt =====
-- `random_password` of src/imp/security_framework.rs against a reader of hexadecimal bytes.
use rust_native_tls.Prelude.{
  ℕ, ◌+◌, ◌-◌, ◌*◌, ◌/◌, ◌%◌, ◌<◌, ◌≡◌, refl, ap, sym, ◌∙◌, ◌&&◌, Option, none, some, List, [], ◌∷◌,
  Result, ok, All, length, leb, arith, if◌then◌else◌, ok-injective,
}
use rust_native_tls.SecurityFramework.Library.{Library}
use rust_native_tls.SecurityFramework.Process.{Process}
use rust_native_tls.SecurityFramework.Identity.{upper_digit, hex_bytes, random_password}

value : ℕ → Option ℕ
value c =
    if leb 48 c && leb c 57
    then some (c - 48)
    else if leb 65 c && leb c 70
    then some (c - 55)
    else none

abbrev byte_of : Option ℕ → Option ℕ → Option (List ℕ) → Option (List ℕ)
byte_of (some hi) (some lo) (some rest) = some ((hi * 16 + lo) ∷ rest)
byte_of _ _ _ = none

-- The bytes of a text of upper-case hexadecimal digits, two for each byte.
pub decode_hex : List ℕ → Option (List ℕ)
unfolding value
decode_hex [] = some []
decode_hex (c ∷ []) = none
decode_hex (c ∷ d ∷ rest) = byte_of (value c) (value d) (decode_hex rest)

value-upper_digit : (d : ℕ) → d < 16 → value (upper_digit d) ≡ some d
unfolding value
value-upper_digit d h = ground arith

abbrev pub IsByte : ℕ → Type 0
IsByte b = b < 256

decode_hex-hex_bytes :
    (bytes : List ℕ) → All IsByte bytes → decode_hex (hex_bytes bytes) ≡ some bytes
unfolding decode_hex hex_bytes
decode_hex-hex_bytes [] h = refl
decode_hex-hex_bytes (b ∷ bytes) (h, hs) =
    let whole : b / 16 * 16 + b % 16 ≡ b = omega arith in
    rw (
      value-upper_digit (b / 16) (omega arith),
      value-upper_digit (b % 16) (omega arith),
      decode_hex-hex_bytes bytes hs,
      whole,
    )

length-hex_bytes : (bytes : List ℕ) → length (hex_bytes bytes) ≡ 2 * length bytes
unfolding hex_bytes
length-hex_bytes [] = omega arith
length-hex_bytes (b ∷ bytes) = omega (arith, length-hex_bytes bytes)

-- The documented behaviour of `SecRandom::copy_bytes`, which fills its buffer.
pub record RandomLaws (L : Library) : Type 0 where
  pub copy_bytes_length :
      (n : ℕ) (s : L.System) {s' : L.System} {bytes : List ℕ}
      → L.copy_bytes n s ≡ (s', some bytes)
      → length bytes ≡ n
  pub copy_bytes_range :
      (n : ℕ) (s : L.System) {s' : L.System} {bytes : List ℕ}
      → L.copy_bytes n s ≡ (s', some bytes)
      → All IsByte bytes

module _ (L : Library) (R : RandomLaws L) where
  password_of :
      (p : Process L) (r : L.System × Option (List ℕ)) {p' : Process L} {password : List ℕ}
      → L.copy_bytes 10 p.system ≡ r
      → random_password L p ≡ (p', ok password)
      → (bytes : List ℕ) × (L.copy_bytes 10 p.system ≡ (p'.system, some bytes))
        × (password ≡ hex_bytes bytes)
  unfolding random_password
  password_of p (s, none) e h = cc (rw e at h)
  password_of p (s, some bytes) e h =
      let given = rw e at h in
      (
        bytes,
        e ∙ ap (λ (r : Process L × Result L.BaseError (List ℕ)). (r.0.system, some bytes)) given,
        sym (ok-injective (ap (λ (r : Process L × Result L.BaseError (List ℕ)). r.1) given)),
      )

  -- A password that is made has 20 characters, and the ten random bytes can be read back from it:
  -- no randomness is lost.
  pub random_password-hex :
      (p : Process L) {p' : Process L} {password : List ℕ}
      → random_password L p ≡ (p', ok password)
      → (bytes : List ℕ) × (L.copy_bytes 10 p.system ≡ (p'.system, some bytes))
        × (decode_hex password ≡ some bytes)
        × (length password ≡ 20)
  random_password-hex p h =
      let (bytes, e, same) = password_of p _ refl h in
      (
        bytes,
        e,
        rw same (decode_hex-hex_bytes bytes (R.copy_bytes_range 10 p.system e)),
        rw same (omega (arith, length-hex_bytes bytes, R.copy_bytes_length 10 p.system e)),
      )
