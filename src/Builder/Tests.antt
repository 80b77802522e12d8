-- ===== src/Builder/Tests.antt =====
-- The theorems on the builders of src/lib.rs at concrete inputs.
use rust_native_tls.Prelude.{ℕ, ◌≡◌, false, none, some, List, [], ◌∷◌}
use rust_native_tls.Protocol.{tlsv11, tlsv12}
use rust_native_tls.Builder.Connector.{connector_builder}
use rust_native_tls.Builder.Calls.{
  Call, run, run_lem, add_root_certificate, min_protocol_version, use_sni,
}

-- Two roots, and a minimum that is set twice.
abbrev calls : List (Call ℕ ℕ)
calls =
    add_root_certificate 1
    ∷ min_protocol_version (some tlsv11)
    ∷ use_sni false
    ∷ add_root_certificate 2
    ∷ min_protocol_version (some tlsv12)
    ∷ []

run_lem_example : run (connector_builder ℕ ℕ) calls ≡ record {
  identity = none;
  min_protocol = some tlsv12;
  max_protocol = none;
  root_certificates = 1 ∷ 2 ∷ [];
  accept_invalid_certs = false;
  accept_invalid_hostnames = false;
  use_sni = false;
  disable_built_in_roots = false;
  alpn = [];
}
run_lem_example = run_lem calls
