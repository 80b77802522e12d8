-- ===== src/Openssl/Alpn/Wire.antt =====
-- The wire format of src/imp/openssl.rs against a reader of RFC 7301's `ProtocolNameList`.
use rust_native_tls.Prelude.{
  ℕ, zero, suc, ◌≤◌, ◌<◌, ◌≡◌, ◌≢◌, refl, sym, ◌∙◌, Option, none, some, List, [], ◌∷◌, ◌++◌,
  append_assoc, arith, leb, ltb, ◌&&◌, length, length-append, take, drop, take-append, drop-append,
  All, if◌then◌else◌, append-nil,
}
use mathlib.Core.Option
use rust_native_tls.Openssl.Alpn.{as_u8, wire_loop, alpn_wire_format, capacity}

-- The names of a list in wire format: each is a length from 1 to 255 and as many bytes. `none` is
-- a malformed list, or one that is longer than the fuel.
pub decode : ℕ → List ℕ → Option (List (List ℕ))
decode zero bytes = none
decode (suc fuel) [] = some []
decode (suc fuel) (n ∷ bytes) =
    let rest = decode fuel (drop n bytes) in
    if ltb 0 n && leb n (length bytes)
    then Option.map (λ names. take n bytes ∷ names) rest
    else none

length-take-le : (n : ℕ) (xs : List ℕ) → length (take n xs) ≤ n
length-take-le zero xs = omega arith
length-take-le (suc n) [] = omega arith
length-take-le (suc n) (x ∷ xs) = omega (arith, length-take-le n xs)

-- A name that the format can hold.
abbrev pub IsName : List ℕ → Type 0
IsName alpn = (0 < length alpn) × (length alpn < 256)

encode : List (List ℕ) → List ℕ
encode [] = []
encode (alpn ∷ rest) = as_u8 (length alpn) ∷ alpn ++ encode rest

wire_loop-eq : (out : List ℕ) (names : List (List ℕ)) → wire_loop out names ≡ out ++ encode names
unfolding wire_loop encode
wire_loop-eq out [] = sym (append-nil out)
wire_loop-eq out (alpn ∷ rest) =
    wire_loop-eq ((out ++ (as_u8 (length alpn) ∷ [])) ++ alpn) rest ∙ simp append_assoc

decode-encode :
    (fuel : ℕ) (names : List (List ℕ))
    → All IsName names
    → length (encode names) < fuel
    → decode fuel (encode names) ≡ some names
unfolding decode encode
decode-encode zero names h f = elim f [ ]
decode-encode (suc fuel) [] h f = refl
decode-encode (suc fuel) (alpn ∷ rest) (h, hs) f =
    let small : as_u8 (length alpn) ≡ length alpn = omega arith in
    rw (small, take-append, drop-append)
      (ground (arith, length-append alpn (encode rest), decode-encode fuel rest hs))

-- A reader of the wire format gets back the names that were requested, in order, if each has from 1 to 255 bytes.
pub decode-alpn_wire_format :
    (names : List (List ℕ))
    → All IsName names
    → let wire = alpn_wire_format names in decode (suc (length wire)) wire ≡ some names
unfolding alpn_wire_format
decode-alpn_wire_format names h = rw (wire_loop-eq [] names) (decode-encode _ names h (omega arith))

-- A first name of more than 255 bytes is never read back, whatever follows: its length byte wraps.
pub decode-alpn_wire_format_long :
    (alpn : List ℕ) (names : List (List ℕ)) (fuel : ℕ)
    → 255 < length alpn
    → decode fuel (alpn_wire_format (alpn ∷ names)) ≢ some (alpn ∷ names)
unfolding alpn_wire_format decode encode
decode-alpn_wire_format_long alpn names zero h e = cc
decode-alpn_wire_format_long alpn names (suc fuel) h e = ground (
  arith,
  wire_loop-eq [] (alpn ∷ names),
  length-take-le (as_u8 (length alpn)) (alpn ++ encode names),
)

length-encode : (names : List (List ℕ)) → length (encode names) ≡ capacity names
unfolding encode capacity
length-encode [] = refl
length-encode (alpn ∷ rest) = omega (arith, length-append alpn (encode rest), length-encode rest)

-- The capacity that is reserved for the wire format is exactly its length.
length-alpn_wire_format : (names : List (List ℕ)) → length (alpn_wire_format names) ≡ capacity names
unfolding alpn_wire_format
length-alpn_wire_format names = rw (wire_loop-eq [] names) (length-encode names)
