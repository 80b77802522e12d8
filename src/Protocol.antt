-- ===== src/Protocol.antt =====
-- `Protocol` of src/lib.rs, and the range of versions that a minimum and a maximum stand for.
use rust_native_tls.Prelude.{ℕ, ◌≤◌, ◌+◌, Bool, true, ◌&&◌, Option, none, some, leb}

pub data Protocol : Type 0 where
  sslv3 tlsv10 tlsv11 tlsv12 non_exhaustive : Protocol

-- `protocol as usize`
abbrev pub as_usize : Protocol → ℕ
as_usize sslv3 = 0
as_usize tlsv10 = 1
as_usize tlsv11 = 2
as_usize tlsv12 = 3
as_usize non_exhaustive = 4

-- A real version. `__NonExhaustive` is hidden from users of the crate.
abbrev pub IsVersion : Protocol → Type 0
IsVersion non_exhaustive = ⊥
IsVersion _ = Unit

-- A bound that is absent or a real version.
abbrev pub IsBound : Option Protocol → Type 0
IsBound none = Unit
IsBound (some p) = IsVersion p

abbrev at_least : Option Protocol → Protocol → Bool
at_least none v = true
at_least (some min) v = leb (as_usize min) (as_usize v)

abbrev at_most : Option Protocol → Protocol → Bool
at_most none v = true
at_most (some max) v = leb (as_usize v) (as_usize max)

-- The specification of the builders' bounds: the versions from the minimum to the maximum, both
-- included, where an absent bound admits everything.
abbrev pub in_range : Option Protocol → Option Protocol → Protocol → Bool
in_range min max v = at_least min v && at_most max v

-- The minimum lies at most one version above the maximum.
abbrev pub IsOrdered : Option Protocol → Option Protocol → Type 0
IsOrdered (some min) (some max) = as_usize min ≤ as_usize max + 1
IsOrdered _ _ = Unit
