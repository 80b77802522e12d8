-- ===== src/Schannel/Error.antt =====
-- `Error` of src/imp/schannel.rs, a newtype around `io::Error`, which stands for it here.
use Prim.Native.String.{String}
use rust_native_tls.Prelude.{Option}
use rust_native_tls.Schannel.Library.{Io}

abbrev pub Error : Type 0
Error = Io

-- `From<io::Error>`
abbrev pub from : Io → Error
from error = error

-- `error::Error::source`, by the sources of `io::Error`.
unfoldable pub source : {D : Type 0} → (Io → Option D) → Error → Option D
source io_source self = io_source self

-- `fmt::Display`, by the texts of `io::Error`.
unfoldable pub display : (Io → String) → Error → String
display io_text self = io_text self

-- `fmt::Debug`, by that of `io::Error`.
unfoldable pub debug : (Io → String) → Error → String
debug io_debug self = io_debug self
