-- ===== src/BuildScript/Version.antt =====
-- The outcome of build.rs for versions that are printed as hexadecimal numbers.
use Prim.Native.String.{String}
use mathlib.Core.Option
use rust_native_tls.Prelude.{
  append-nil, ℕ, zero, suc, ◌+◌, ◌*◌, ◌^◌, ◌/◌, ◌%◌, ◌<◌, ◌≤◌, ◌≡◌, refl, ◌∙◌, ap, Bool, true,
  false, Bool-cases, inl, inr, Option, none, some, List, [], ◌∷◌, ◌++◌, ltb, leb, ◌==◌, ok, arith,
  if◌then◌else◌,
}
use rust_native_tls.BuildScript.{
  to_digit, parse_digits, from_str_radix, check_variable, print_if, cfg_line, openssl_threshold,
  libressl_threshold, main,
}

-- The digits of `{:x}`.
abbrev from_digit : ℕ → ℕ
from_digit d = if ltb d 10 then 48 + d else 87 + d

to_digit-from_digit : (d : ℕ) → d < 16 → to_digit (from_digit d) ≡ some d
unfolding to_digit
to_digit-from_digit d h = ground arith

hex_loop : ℕ → ℕ → List ℕ → List ℕ
hex_loop zero n out = out
hex_loop (suc fuel) n out =
    let rest = hex_loop fuel (n / 16) (from_digit (n % 16) ∷ out) in
    if ltb n 16 then from_digit n ∷ out else rest

-- The number in lower-case hexadecimal digits, without leading zeros: `format!("{:x}", n)`.
unfoldable pub hex : ℕ → List ℕ
unfolding hex_loop
hex n = hex_loop (suc n) n []

parse_digits-step :
    (acc d : ℕ) (out : List ℕ)
    → d < 16
    → acc * 16 + d < 2 ^ 64
    → parse_digits acc (from_digit d ∷ out) ≡ parse_digits (acc * 16 + d) out
unfolding parse_digits
parse_digits-step acc d out h b = rw (parse_digits, to_digit-from_digit d h) (ground arith)

parse_digits-hex_loop :
    (fuel n : ℕ) (out : List ℕ)
    → n < fuel
    → n < 2 ^ 64
    → parse_digits 0 (hex_loop fuel n out) ≡ parse_digits n out
unfolding hex_loop
parse_digits-hex_loop zero n out h b = absurd (omega arith)
parse_digits-hex_loop (suc fuel) n out h b = elim (Bool-cases (ltb n 16)) [
  | inl e ↦
      let whole : 0 * 16 + n ≡ n = omega arith in
      rw e (
        parse_digits-step 0 n out (ground arith) (omega arith) ∙ ap (λ k. parse_digits k out) whole)
  | inr e ↦
      let big : 16 ≤ n = ground arith in
      let whole : n / 16 * 16 + n % 16 ≡ n = omega arith in
      rw e (
        parse_digits-hex_loop fuel (n / 16) (from_digit (n % 16) ∷ out) (omega arith) (omega arith)
        ∙ parse_digits-step (n / 16) (n % 16) out (omega arith) (omega arith)
        ∙ ap (λ k. parse_digits k out) whole)
]

-- The printed number is not empty and does not begin with a plus sign.
hex_loop-head :
    (fuel n : ℕ) (out : List ℕ)
    → n < fuel
    → (c : ℕ) × (cs : List ℕ) × (hex_loop fuel n out ≡ c ∷ cs) × ((c == 43) ≡ false)
unfolding hex_loop
hex_loop-head zero n out h = absurd (omega arith)
hex_loop-head (suc fuel) n out h = elim (Bool-cases (ltb n 16)) [
  | inl e ↦ (from_digit n, out, rw e, ground arith)
  | inr e ↦
      let big : 16 ≤ n = ground arith in
      let (c, cs, same, sign) =
        hex_loop-head fuel (n / 16) (from_digit (n % 16) ∷ out) (omega arith) in
      (c, cs, rw e same, sign)
]

from_str_radix-unsigned :
    (text : List ℕ) (c : ℕ) (cs : List ℕ) {n : ℕ}
    → text ≡ c ∷ cs
    → (c == 43) ≡ false
    → parse_digits 0 text ≡ some n
    → from_str_radix text ≡ some n
unfolding from_str_radix
from_str_radix-unsigned text c cs same sign read = rw same (rw sign (rw same at read))

-- A version that is printed in hexadecimal is read back.
from_str_radix-hex : (n : ℕ) → n < 2 ^ 64 → from_str_radix (hex n) ≡ some n
unfolding hex parse_digits
from_str_radix-hex n b =
    let (c, cs, same, sign) = hex_loop-head (suc n) n [] (omega arith) in
    from_str_radix-unsigned (hex n) c cs same sign
      (parse_digits-hex_loop (suc n) n [] (omega arith) b)

-- A variable is not set, or holds a 64-bit number.
abbrev pub IsU64 : Option ℕ → Type 0
IsU64 none = Unit
IsU64 (some n) = n < 2 ^ 64

abbrev pub reaches : ℕ → Option ℕ → Bool
reaches threshold none = false
reaches threshold (some version) = leb threshold version

abbrev pub lines_if : Bool → List String
lines_if b = if b then cfg_line ∷ [] else []

print_if-lines : (b : Bool) (out : List String) → print_if b out ≡ (out ++ lines_if b, ok tt)
print_if-lines true out = refl
print_if-lines false out = rw append-nil

check_variable-hex :
    (version : Option ℕ) (threshold : ℕ) (out : List String)
    → IsU64 version
    → check_variable (Option.map hex version) threshold out
      ≡ (out ++ lines_if (reaches threshold version), ok tt)
unfolding check_variable
check_variable-hex none threshold out h = rw append-nil
check_variable-hex (some n) threshold out h = rw (from_str_radix-hex n h) (print_if-lines _ out)

-- For variables that are not set or hold a 64-bit number in hexadecimal, the script ends without a
-- panic, and prints the line that sets `have_min_max_version` once for each of the two versions
-- that reaches its threshold: OpenSSL 1.1.0 and LibreSSL 2.6.1.
pub main-hex :
    (openssl libressl : Option ℕ)
    → IsU64 openssl
    → IsU64 libressl
    → main (Option.map hex openssl) (Option.map hex libressl) [] ≡ (
      lines_if (reaches openssl_threshold openssl)
          ++ lines_if (reaches libressl_threshold libressl),
      ok tt,
    )
unfolding main
main-hex openssl libressl o l =
    rw (check_variable-hex openssl openssl_threshold [] o)
      (check_variable-hex libressl libressl_threshold _ l)
