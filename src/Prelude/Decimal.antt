-- ===== src/Prelude/Decimal.antt =====
-- `{}` of an unsigned number.
use Prim.Native.Nat.{ℕ, zero, suc, ◌+◌, ◌*◌, ◌/◌, ◌%◌, ◌-◌, ◌<◌}
use mathlib.Core.Path.{◌≡◌, ap, sym, ◌∙◌}
use mathlib.Core.List.{List, [], ◌∷◌, ◌++◌, foldl, foldl-append}
use native.Mathlib.Omega.{arith}
use rust_native_tls.Prelude.Tests.{ltb, if◌then◌else◌}

-- At most `fuel` digits, the first one first.
decimal_from : ℕ → ℕ → List ℕ
decimal_from zero n = []
decimal_from (suc fuel) n =
    let front = decimal_from fuel (n / 10) in
    if ltb n 10 then (b'0' + n) ∷ [] else front ++ ((b'0' + n % 10) ∷ [])

unfoldable pub decimal : ℕ → List ℕ
unfolding decimal_from
decimal n = decimal_from (suc n) n

-- The number that digits stand for.
abbrev shift : ℕ → ℕ → ℕ
shift acc c = acc * 10 + (c - b'0')

read : List ℕ → ℕ
read digits = foldl shift 0 digits

read-decimal_from : (fuel n : ℕ) → n < fuel → read (decimal_from fuel n) ≡ n
unfolding decimal_from read
read-decimal_from zero n h = elim h [ ]
read-decimal_from (suc fuel) n h = ground (
  arith,
  read-decimal_from fuel (n / 10),
  foldl-append shift 0 (decimal_from fuel (n / 10)) ((b'0' + n % 10) ∷ []),
)

-- Different numbers are printed differently.
pub decimal-injective : (m n : ℕ) → decimal m ≡ decimal n → m ≡ n
unfolding decimal
decimal-injective m n h =
    sym (read-decimal_from (suc m) m (omega arith))
    ∙ ap read h
    ∙ read-decimal_from (suc n) n (omega arith)
