-- ===== src/Prelude/Io.antt =====
-- `std::io::Error` as far as the backends build and read it.
use Prim.Native.Nat.{ℕ}
use mathlib.Core.Option.{Option, none, some}

pub data ErrorKind : Type 0 where
  invalid_input other : ErrorKind
  -- Any other kind, by a code.
  kind : ℕ → ErrorKind

-- `custom` is `io::Error::new(kind, payload)`, `os` an error of the system by its code.
pub data IoError (P : Type 0) : Type 0 where
  custom : ErrorKind → P → IoError P
  os : ℕ → IoError P
  simple : ErrorKind → IoError P

-- `io::Error::raw_os_error`, the `i32` as a bit pattern.
abbrev pub raw_os_error : {P : Type 0} → IoError P → Option ℕ
raw_os_error (os code) = some code
raw_os_error _ = none
