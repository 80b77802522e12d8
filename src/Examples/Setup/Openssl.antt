-- ===== src/Examples/Setup/Openssl.antt =====
-- examples/simple-server-pkcs8.rs over src/imp/openssl.rs, up to its loop.
use rust_native_tls.Openssl.Library.{Library}
use rust_native_tls.Openssl.Identity.{Identity}
use rust_native_tls.Openssl.View.{OptionLaws, ContextLaws}
use rust_native_tls.Openssl.Connector.{Build}
use rust_native_tls.Api.Openssl
use rust_native_tls.Api.Openssl.{Texts}
use rust_native_tls.Api.Backend.{Backend}
use rust_native_tls.Api.Credentials
use rust_native_tls.Examples.Std.{StreamErrors}
use rust_native_tls.Examples.Server.Schedule.{Server}
use rust_native_tls.Examples.Setup.{System}

module _ (L : Library) (O : OptionLaws L.crypto L.context) (V : ContextLaws L.crypto L.context O)
    (T : Texts L) (build : Build) (N : Type 0) (E : StreamErrors (Openssl.backend L T build))
    (S : System (Openssl.backend L T build) N) where
  abbrev backend : Backend
  backend = Openssl.backend L T build
