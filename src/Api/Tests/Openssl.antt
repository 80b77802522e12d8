-- ===== src/Api/Tests/Openssl.antt =====
-- The theorems on src/lib.rs and simple-server-pkcs8 over the OpenSSL backend at a concrete input.
use rust_native_tls.Protocol.{tlsv10}
use rust_native_tls.Prelude.{
  List, ◌∷◌, ok, length, some, ℕ, ◌≡◌, refl, true, false, none, [], map_err, leb, if◌then◌else◌,
  custom, other,
}
use rust_native_tls.Builder.Connector.{TlsConnectorBuilder, connector_builder}
use rust_native_tls.Openssl.Error.{from_ssl}
use rust_native_tls.Openssl.Identity as OpensslIdentity
use rust_native_tls.Openssl.Identity.{Identity, pkcs8_guard}
use rust_native_tls.Examples.Std.{StreamErrors}
use rust_native_tls.Examples.Server.{simple_server_pkcs8}
use rust_native_tls.Examples.Server.Schedule.{Server, connected, start}
use rust_native_tls.Examples.Setup.{System, identity}
use rust_native_tls.Openssl.Trust.{Process, init_trust}
use rust_native_tls.Openssl.Versions.{supported_protocols, supported_protocols_min_max}
use rust_native_tls.Openssl.Connector
use rust_native_tls.Openssl.Connector.{
  TlsConnector, Build, set_up, use_identity, use_own_store, add_roots, use_alpn, use_android,
}
use rust_native_tls.Openssl.Tests.Toy.{fresh, Settings}
use rust_native_tls.Openssl.Tests.ToySession.{Configuration, library, configuration_laws}
use rust_native_tls.Api.Backend.{Backend}
use rust_native_tls.Api.Openssl
use rust_native_tls.Api.Openssl.{Texts}
use rust_native_tls.Api.Credentials.{connector_build, connector_new}
use rust_native_tls.Api.Connections.{connect, handshaken}
use rust_native_tls.Api.Policy.Openssl.{connector_build-Checks, connector_new-Checks}

abbrev texts : Texts library
texts = record {
  Cause = ℕ;
  stack_source = λ e. none;
  ssl_source = λ e. none;
  stack_text = λ e. "an error stack";
  ssl_text = λ e. "an error";
  verify_text = λ v. "a verification error";
  verify_is_ok = λ v. false;
}

abbrev build : Build
build = record { have_min_max_version = true; android = none }

abbrev backend : Backend
backend = Openssl.backend library texts build

-- A builder that checks nothing.
abbrev lax : TlsConnectorBuilder (Identity library) ℕ
lax = record {
  identity = none;
  min_protocol = none;
  max_protocol = none;
  root_certificates = [];
  accept_invalid_certs = true;
  accept_invalid_hostnames = true;
  use_sni = false;
  disable_built_in_roots = false;
  alpn = [];
}

abbrev lax_connector : TlsConnector library
lax_connector = record {
  connector = fresh;
  use_sni = false;
  accept_invalid_hostnames = true;
  accept_invalid_certs = true;
}

-- A process before its first connector.
abbrev process : Process library
process = record { once = false; env = 0 }

abbrev process_after : Process library
process_after = record { once = true; env = library.init_ssl_cert_env_vars 0 }

connector_build-Checks_example :
    (process_after ≡ init_trust library process)
    × ((cc : Configuration) × (connect backend lax_connector [] 1
          ≡ handshaken backend (map_err (from_ssl library) (library.connect cc [] 1)))
        × (configuration_laws.checks cc ≡ record { sni = false; hostname = false; mode = false }))
unfolding connector_build Connector.new init_trust set_up supported_protocols
    supported_protocols_min_max use_identity use_own_store add_roots use_alpn use_android
connector_build-Checks_example =
    connector_build-Checks library configuration_laws texts build lax process {p' = process_after}
      {c = lax_connector} [] 1 refl refl

abbrev default : TlsConnector library
default = record {
  connector = record fresh { min_proto = some tlsv10 };
  use_sni = true;
  accept_invalid_hostnames = false;
  accept_invalid_certs = false;
}

connector_new-Checks_example :
    (cc : Configuration) × (connect backend default [] 3
      ≡ handshaken backend (map_err (from_ssl library) (library.connect cc [] 3)))
    × (configuration_laws.checks cc ≡ record { sni = true; hostname = true; mode = true })
unfolding connector_new connector_build connector_builder Connector.new init_trust set_up
    supported_protocols supported_protocols_min_max use_identity use_own_store add_roots use_alpn
    use_android
connector_new-Checks_example =
    connector_new-Checks library configuration_laws texts build process {p' = process_after}
      {c = default} [] 3 refl refl

-- A key with the PKCS#8 header, and the certificates 2, 3 and 4.
abbrev key : List ℕ
key = pkcs8_guard

abbrev own : Identity library
own = record { pkey = length key; cert = 2; chain = 3 ∷ 4 ∷ [] }

abbrev own_context : Settings
own_context = record fresh {
  certificate = some 2;
  private_key = some (length key);
  extra_chain = 3 ∷ 4 ∷ [];
  min_proto = some tlsv10;
}

abbrev stream_errors : StreamErrors backend
stream_errors = record { is_interrupted = λ e. false; write_zero = custom other 0 }

-- The file of certificates, that of the key, and a listener with the sockets 1 and 2.
abbrev system : System backend ℕ
system = record {
  read_file = λ path. if leb 13 (length path) then ok (2 ∷ 3 ∷ 4 ∷ []) else ok key;
  bind = λ address. ok (connected 1 ∷ connected 2 ∷ []);
}

abbrev server : Server backend ℕ
server =
    start backend ℕ stream_errors simple_server_pkcs8 own_context (connected 1 ∷ connected 2 ∷ [])
