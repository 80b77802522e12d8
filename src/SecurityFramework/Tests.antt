-- ===== src/SecurityFramework/Tests.antt =====
-- The theorems on src/imp/security_framework.rs at concrete inputs.
pub mod Toy
mod Identities
use rust_native_tls.Prelude.{
  ◌↔◌, ℕ, ◌+◌, ◌≡◌, refl, Bool, true, false, Option, none, some, List, [], ◌∷◌, Result, ok, err,
  ◌==◌, if◌then◌else◌,
}
use rust_native_tls.Protocol.{Protocol, sslv3, tlsv10, tlsv11, tlsv12}
use rust_native_tls.SecurityFramework.Library.{
  Transport, LibraryHandshakeError, interrupted, Library,
}
use rust_native_tls.SecurityFramework.Identity.{Identity}
use rust_native_tls.SecurityFramework.Connector.{
  TlsConnector, TlsAcceptor, TlsStream, server, client, client_stream, server_stream, connect,
  accept, client_options, convert_protocol, handshake,
}
use rust_native_tls.SecurityFramework.Connector.Resume.{
  changed, again, here, accept-Resumed, connect-Resumed,
}
use rust_native_tls.SecurityFramework.Stream.{negotiated_alpn}
use rust_native_tls.SecurityFramework.Connector.Request.{ClientLaws, requested, connect-Request}
use rust_native_tls.SecurityFramework.Stream.{mid_handshake_get_mut}
use rust_native_tls.SecurityFramework.Tests.Toy.{
  server_laws, Options, transport, shake, library, client_laws, dir_laws, random_laws,
}

abbrev own : Identity library
own = record { identity = 4; chain = 6 ∷ [] }

abbrev acceptor : TlsAcceptor library
acceptor = record { identity = own; min_protocol = some tlsv10; max_protocol = none }

abbrev connector : TlsConnector library
connector = record {
  identity = some own;
  min_protocol = some tlsv11;
  max_protocol = none;
  roots = 8 ∷ [];
  use_sni = true;
  danger_accept_invalid_hostnames = false;
  danger_accept_invalid_certs = false;
  disable_built_in_roots = true;
  alpn = [];
}

-- Accepted after one interruption, in which the inner stream is replaced.
abbrev accepted : TlsStream library
accepted = record { stream = 3; cert = some 5 }

accept-Resumed_example :
    (cert : ℕ) × (◌≡◌ {A = Result ℕ ℕ} (ok 5) (ok cert)) × (◌≡◌ {A = Option ℕ} (some 5) (some cert))
unfolding accept server_stream handshake convert_protocol mid_handshake_get_mut
accept-Resumed_example =
    accept-Resumed library acceptor 1 {s = accepted}
      (changed (server 1 (some 5)) 3 (again (server 3 (some 5)) here))

-- Over socket 3 the library negotiates h2.
abbrev negotiated : TlsStream library
negotiated = record { stream = 3; cert = none }
