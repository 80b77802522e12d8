-- ===== src/BuildScript.antt =====
-- `main` of build.rs: the `have_min_max_version` of the OpenSSL backend, by the versions that the
-- build script of `openssl-sys` leaves in the environment.
mod Tests
pub mod Version
use Prim.Native.String.{String}
use rust_native_tls.Prelude.{
  ℕ, zero, suc, ◌+◌, ◌*◌, ◌-◌, ◌^◌, Bool, true, false, ◌&&◌, Option, none, some, List, [], ◌∷◌,
  ◌++◌, ltb, leb, ◌==◌, Result, ok, err, panic, if◌then◌else◌,
}
use rust_native_tls.Prelude.State.{M, ◌>>=◌, ◌>>◌, pure}

-- `char::to_digit(16)`
unfoldable pub to_digit : ℕ → Option ℕ
to_digit c =
    if leb 48 c && leb c 57
    then some (c - 48)
    else if leb 97 c && leb c 102
    then some (c - 87)
    else if leb 65 c && leb c 70
    then some (c - 55)
    else none

-- `u64::from_str_radix(text, 16)` after the sign. `none` is an error: not a digit, or an overflow.
unfoldable pub parse_digits : ℕ → List ℕ → Option ℕ
parse_digits acc [] = some acc
parse_digits acc (c ∷ cs) = elim (to_digit c) [
  | none ↦ none
  | some d ↦
      (let rest = parse_digits (acc * 16 + d) cs in
        if ltb (acc * 16 + d) (2 ^ 64) then rest else none)
]

-- The text without its sign may not be empty.
abbrev non_empty : List ℕ → Option ℕ
non_empty [] = none
non_empty (c ∷ cs) = parse_digits 0 (c ∷ cs)

-- `u64::from_str_radix(text, 16)`, with its optional `+`. A `-` is no digit.
unfoldable pub from_str_radix : List ℕ → Option ℕ
from_str_radix [] = none
from_str_radix (c ∷ cs) = if c == 43 then non_empty cs else non_empty (c ∷ cs)

-- What the script has printed.
abbrev pub Code : Type 0 → Type 0
Code A = M (List String) (Unit {0}) A

abbrev pub cfg_line : String
cfg_line = "cargo:rustc-cfg=have_min_max_version"

abbrev pub print_if : Bool → Code (Unit {0})
print_if true out = (out ++ (cfg_line ∷ []), ok tt)
print_if false out = (out, ok tt)

-- `.unwrap()` of the parsed version, and the test of it.
abbrev test_version : Option ℕ → ℕ → Code (Unit {0})
test_version none threshold out = (out, panic)
test_version (some version) threshold out = print_if (leb threshold version) out

-- One `if let Ok(version) = env::var(...) { ... }`: a variable that is not set is `none`.
unfoldable pub check_variable : Option (List ℕ) → ℕ → Code (Unit {0})
unfolding from_str_radix
check_variable none threshold out = (out, ok tt)
check_variable (some text) threshold out = test_version (from_str_radix text) threshold out

abbrev pub openssl_threshold : ℕ
openssl_threshold = 0x10100000

abbrev pub libressl_threshold : ℕ
libressl_threshold = 0x20601000

-- `main`, by DEP_OPENSSL_VERSION_NUMBER and DEP_OPENSSL_LIBRESSL_VERSION_NUMBER.
unfoldable pub main : Option (List ℕ) → Option (List ℕ) → Code (Unit {0})
unfolding check_variable
main openssl libressl = do
  check_variable openssl openssl_threshold
  check_variable libressl libressl_threshold
