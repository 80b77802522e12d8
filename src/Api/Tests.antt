-- ===== src/Api/Tests.antt =====
-- The theorems on src/lib.rs over the Security Framework backend, whose toy library interrupts the
-- handshake over socket 1 once.
mod Openssl
mod AppleServe
mod Schannel
use rust_native_tls.Prelude.{true, false, ℕ, ◌≤◌, ◌≡◌, ◌↔◌, ◌⊎◌, refl, none, some, [], ◌∷◌, ok, err}
use rust_native_tls.Protocol.{tlsv11}
use rust_native_tls.Builder.Connector.{TlsConnectorBuilder, connector_builder}
use rust_native_tls.Api.Credentials.{connector_build}
use rust_native_tls.Api.Policy.Apple.{policy, connector_build-Request}
use rust_native_tls.Api.Policy.Schannel.{Asks, connector_build-Asks}
use rust_native_tls.Schannel.Connector as SchannelConnector
use rust_native_tls.Schannel.Connector.Accepts.{connector_of}
use rust_native_tls.Schannel.Tests.Toy
use rust_native_tls.SecurityFramework.Identity.{Identity}
use rust_native_tls.Api.Backend.{Backend, would_block}
use rust_native_tls.Api.Errors.{from_imp}
use rust_native_tls.Api.Connections.{connect, accept, handshaken}
use rust_native_tls.Api.Retry.{Completes, retry, retry-Completes}
use rust_native_tls.Api.Apple
use rust_native_tls.SecurityFramework.Process.{macos, Process}
use rust_native_tls.SecurityFramework.Connector.{MidHandshakeTlsStream, client, blocked}
use rust_native_tls.SecurityFramework.Connector
use rust_native_tls.SecurityFramework.Tests.Toy.{library, client_laws}

-- The errors are numbers without a source.
abbrev backend : Backend
backend = Apple.backend library macos ℕ (λ e. none) (λ e. "an error")

abbrev connector : backend.TlsConnector
connector = record {
  identity = none;
  min_protocol = none;
  max_protocol = none;
  roots = [];
  use_sni = true;
  danger_accept_invalid_hostnames = false;
  danger_accept_invalid_certs = false;
  disable_built_in_roots = false;
  alpn = [];
}

abbrev stream : backend.TlsStream
stream = record { stream = 1; cert = none }

abbrev acceptor : backend.TlsAcceptor
acceptor = record {
  identity = record { identity = 4; chain = [] };
  min_protocol = none;
  max_protocol = none;
}

-- One resumption suffices.
retry-Completes_example :
    ((retry backend 1 (connect backend connector [] 1) ≡ ok stream)
      ↔ ((m : ℕ) × (m ≤ 1) × Completes backend (backend.connect connector [] 1) m stream))
    × ((retry backend 1 (accept backend acceptor 1) ≡ ok stream)
        ↔ ((m : ℕ) × (m ≤ 1) × Completes backend (backend.accept acceptor 1) m stream))
retry-Completes_example = retry-Completes backend connector acceptor [] 1 1 stream

-- A process without directories.
abbrev process : Process library
process = record { temp_keychain = none; poisoned = false; set_at_exit = false; system = [] }

abbrev apple_default : TlsConnectorBuilder (Identity library) ℕ
apple_default = connector_builder (Identity library) ℕ

-- The default builder.
connector_build-Request_example :
    (c : Connector.TlsConnector library) × (cb : library.ClientBuilder) × (connector_build backend
        apple_default process
      ≡ (process, ok c))
    × (client_laws.request cb
        ≡ policy library client_laws macos ℕ (λ e. none) (λ e. "an error") apple_default)
    × (connect backend c [] 2
        ≡ handshaken backend (Connector.client_stream library (library.client_handshake cb [] 2)))
unfolding connector_builder
connector_build-Request_example =
    connector_build-Request library client_laws macos ℕ (λ e. none) (λ e. "an error") apple_default
      process [] 2 tt tt

-- A connector for TLS 1.1 and above that trusts only the root 5.
abbrev schannel_builder : TlsConnectorBuilder ℕ ℕ
schannel_builder = record {
  identity = some 7;
  min_protocol = some tlsv11;
  max_protocol = none;
  root_certificates = 5 ∷ [];
  accept_invalid_certs = false;
  accept_invalid_hostnames = false;
  use_sni = true;
  disable_built_in_roots = true;
  alpn = (104 ∷ 50 ∷ []) ∷ [];
}

connector_build-Asks_example :
    Asks Toy.library Toy.builder_laws Toy.store_laws ℕ
      (λ e. none)
      (λ e. "an error")
      schannel_builder
      []
      2
      (connector_of Toy.library Toy.builder_laws Toy.store_laws schannel_builder (5 ∷ []))
unfolding connector_build SchannelConnector.new SchannelConnector.add_roots
connector_build-Asks_example =
    connector_build-Asks Toy.library Toy.builder_laws Toy.store_laws ℕ (λ e. none) (λ e. "an error")
      schannel_builder (record { counter = 0; system = [] })
      {p' = record { counter = 0; system = [] }}
      {c = connector_of Toy.library Toy.builder_laws Toy.store_laws schannel_builder (5 ∷ [])} [] 2
      refl tt tt tt
