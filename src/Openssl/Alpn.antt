-- ===== src/Openssl/Alpn.antt =====
-- The ALPN block of `TlsConnector::new` of src/imp/openssl.rs: the wire format of the names.
pub mod Wire
use rust_native_tls.Prelude.{ℕ, ◌+◌, ◌%◌, List, [], ◌∷◌, ◌++◌, length}

-- `len as u8`
abbrev pub as_u8 : ℕ → ℕ
as_u8 n = n % 256

-- The loop that pushes each length and extends by the name.
unfoldable pub wire_loop : List ℕ → List (List ℕ) → List ℕ
wire_loop out [] = out
wire_loop out (alpn ∷ rest) = wire_loop ((out ++ (as_u8 (length alpn) ∷ [])) ++ alpn) rest

unfoldable pub alpn_wire_format : List (List ℕ) → List ℕ
unfolding wire_loop
alpn_wire_format names = wire_loop [] names

sum_lengths : List (List ℕ) → ℕ
sum_lengths [] = 0
sum_lengths (alpn ∷ rest) = length alpn + sum_lengths rest

-- The argument of `Vec::with_capacity`.
unfoldable pub capacity : List (List ℕ) → ℕ
unfolding sum_lengths
capacity names = sum_lengths names + length names
