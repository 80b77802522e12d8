-- ===== src/Api/Tests/AppleServe.antt =====
-- The theorem on acceptors of src/lib.rs over the Security Framework backend at a concrete input.
use rust_native_tls.Prelude.{ℕ, ◌≡◌, ◌⊎◌, none, some, [], ◌∷◌, ok}
use rust_native_tls.Protocol.{tlsv11}
use rust_native_tls.Builder.Acceptor.{TlsAcceptorBuilder}
use rust_native_tls.SecurityFramework.Process.{macos}
use rust_native_tls.SecurityFramework.Identity.{Identity}
use rust_native_tls.SecurityFramework.Connector.{TlsAcceptor}
use rust_native_tls.SecurityFramework.Tests.Toy.{library, server_laws}
use rust_native_tls.Api.Backend.{Backend}
use rust_native_tls.SecurityFramework.Connector.Serve.{HasRefusal}
use rust_native_tls.Api.Apple
use rust_native_tls.Api.Connections.{acceptor_build, accept}
use rust_native_tls.Api.Policy.AppleServe.{
  acceptor_of, IsServed, IsFailure, acceptor_build-IsServed,
}

abbrev backend : Backend
backend = Apple.backend library macos ℕ (λ e. none) (λ e. "an error")

-- A builder for TLS 1.1 and later.
abbrev builder : TlsAcceptorBuilder (Identity library)
builder = record {
  identity = record { identity = 4; chain = 6 ∷ [] };
  min_protocol = some tlsv11;
  max_protocol = none;
}

abbrev acceptor : TlsAcceptor library
acceptor = acceptor_of library server_laws macos ℕ (λ e. none) (λ e. "an error") builder

-- Over socket 1 the handshake is interrupted.
acceptor_build-IsServed_example :
    (acceptor_build backend builder ≡ ok acceptor)
    × (IsServed library server_laws macos ℕ (λ e. none) (λ e. "an error") builder 1
        ⊎ HasRefusal library
            (λ A s.
              IsFailure library server_laws macos ℕ
                (λ e. none)
                (λ e. "an error")
                A
                s
                (accept backend acceptor 1))
            acceptor)
acceptor_build-IsServed_example =
    acceptor_build-IsServed library server_laws macos ℕ (λ e. none) (λ e. "an error") builder 1 tt
      tt
