-- ===== src/SecurityFramework/Error.antt =====
-- `Error` of src/imp/security_framework.rs, a newtype around `base::Error`, which stands for it
-- here.
use Prim.Native.String.{String}
use rust_native_tls.Prelude.{Option}
use rust_native_tls.SecurityFramework.Library.{Library}

module _ (L : Library) where
  abbrev pub Error : Type 0
  Error = L.BaseError

  -- `From<base::Error>`
  abbrev pub from : L.BaseError → Error
  from error = error

  -- `error::Error::source`, by the sources of `base::Error`.
  unfoldable pub source : {D : Type 0} → (L.BaseError → Option D) → Error → Option D
  source base_source self = base_source self

  -- `fmt::Display`, by the texts of `base::Error`.
  unfoldable pub display : (L.BaseError → String) → Error → String
  display base_text self = base_text self

  -- `fmt::Debug`, by that of `base::Error`.
  unfoldable pub debug : Error → String
  debug self = L.base_debug self
