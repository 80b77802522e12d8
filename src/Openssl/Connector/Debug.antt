-- ===== src/Openssl/Connector/Debug.antt =====
-- `fmt::Debug` of `TlsConnector` of src/imp/openssl.rs.
use Prim.Native.String.{String, ◌++◌}
use rust_native_tls.Prelude.{Bool, true, false}
use rust_native_tls.Openssl.Library.{Library}
use rust_native_tls.Openssl.Connector.{TlsConnector}

abbrev debug_bool : Bool → String
debug_bool true = "true"
debug_bool false = "false"

module _ (L : Library) where
  -- The text of `{:?}`, which leaves the library's connector out.
  unfoldable pub debug : TlsConnector L → String
  debug self =
      "TlsConnector { use_sni: "
      ++ debug_bool self.use_sni
      ++ ", accept_invalid_hostnames: "
      ++ debug_bool self.accept_invalid_hostnames
      ++ ", accept_invalid_certs: "
      ++ debug_bool self.accept_invalid_certs
      ++ " }"
