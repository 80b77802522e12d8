-- ===== src/Api/Tests/Schannel.antt =====
-- The theorem on acceptors of src/lib.rs over the SChannel backend at a concrete input.
use rust_native_tls.Prelude.{ℕ, ◌≡◌, ◌>>=◌, none, ok, map_err}
use rust_native_tls.Protocol.{sslv3, tlsv10, tlsv11, tlsv12, in_range}
use rust_native_tls.Prelude.{some}
use rust_native_tls.Builder.Acceptor.{TlsAcceptorBuilder}
use rust_native_tls.Schannel.Library.{inbound}
use rust_native_tls.Schannel.Protocols.{accepted}
use rust_native_tls.Schannel.Connector.{TlsAcceptor, failed, from_library}
use rust_native_tls.Schannel.Tests.Toy.{library, builder_laws, store_laws}
use rust_native_tls.Api.Backend.{Backend}
use rust_native_tls.Api.Schannel
use rust_native_tls.Api.Connections.{acceptor_build, accept, handshaken}
use rust_native_tls.Api.Policy.Schannel.{acceptor_build-Asks}

abbrev backend : Backend
backend = Schannel.backend library ℕ (λ e. none) (λ e. "an error")

-- The builder of certificate 7, for TLS 1.0 and above.
abbrev builder : TlsAcceptorBuilder ℕ
builder = record { identity = 7; min_protocol = some tlsv10; max_protocol = none }

acceptor_build-Asks_example :
    (a : TlsAcceptor library) × (d : library.CredBuilder) × (acceptor_build backend builder ≡ ok a)
    × (builder_laws.own_of d ≡ some 7)
    × (builder_laws.protocols_of d
        ≡ accepted sslv3 tlsv10 tlsv11 tlsv12 (in_range (some tlsv10) none))
    × (accept backend a 2
        ≡ handshaken backend (
            map_err failed (library.acquire_cred d inbound) >>= λ cred.
            map_err (from_library library) (library.accept library.builder_new cred 2)))
acceptor_build-Asks_example =
    acceptor_build-Asks library builder_laws store_laws ℕ (λ e. none) (λ e. "an error") builder 2 tt
      tt tt
