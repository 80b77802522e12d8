-- ===== src/Builder/Calls.antt =====
-- Programs of builder calls on `TlsConnectorBuilder` of src/lib.rs: what a sequence of calls leaves.
use rust_native_tls.Prelude.{
  ◌∙◌, ℕ, ◌≡◌, Bool, true, false, Option, none, some, List, [], ◌∷◌, ◌++◌, append-nil, append_assoc,
}
use rust_native_tls.Protocol.{Protocol, tlsv10}
use rust_native_tls.Builder.Connector
use rust_native_tls.Builder.Connector.{TlsConnectorBuilder, connector_builder}

-- A call of one of the builder's methods.
pub data Call (I C : Type 0) : Type 0 where
  identity : I → Call I C
  min_protocol_version max_protocol_version : Option Protocol → Call I C
  add_root_certificate : C → Call I C
  disable_built_in_roots danger_accept_invalid_certs use_sni : Bool → Call I C
  danger_accept_invalid_hostnames : Bool → Call I C
  request_alpns : List (List ℕ) → Call I C

module _ {I C : Type 0} where
  perform : TlsConnectorBuilder I C → Call I C → TlsConnectorBuilder I C
  unfolding Connector.identity Connector.min_protocol_version Connector.max_protocol_version
      Connector.add_root_certificate Connector.disable_built_in_roots
      Connector.danger_accept_invalid_certs Connector.use_sni
      Connector.danger_accept_invalid_hostnames Connector.request_alpns
  perform b (identity i) = Connector.identity b i
  perform b (min_protocol_version p) = Connector.min_protocol_version b p
  perform b (max_protocol_version p) = Connector.max_protocol_version b p
  perform b (add_root_certificate c) = Connector.add_root_certificate b c
  perform b (disable_built_in_roots v) = Connector.disable_built_in_roots b v
  perform b (danger_accept_invalid_certs v) = Connector.danger_accept_invalid_certs b v
  perform b (use_sni v) = Connector.use_sni b v
  perform b (danger_accept_invalid_hostnames v) = Connector.danger_accept_invalid_hostnames b v
  perform b (request_alpns names) = Connector.request_alpns b names

  -- A chain of calls, as in `builder.min_protocol_version(p).use_sni(false)`.
  unfoldable pub run : TlsConnectorBuilder I C → List (Call I C) → TlsConnectorBuilder I C
  unfolding perform
  run b [] = b
  run b (call ∷ calls) = run (perform b call) calls

  -- What a call sets, by field.
  abbrev sets_identity : Call I C → Option (Option I)
  sets_identity (identity i) = some (some i)
  sets_identity _ = none

  abbrev sets_min : Call I C → Option (Option Protocol)
  sets_min (min_protocol_version p) = some p
  sets_min _ = none

  abbrev sets_max : Call I C → Option (Option Protocol)
  sets_max (max_protocol_version p) = some p
  sets_max _ = none

  abbrev sets_certs : Call I C → Option Bool
  sets_certs (danger_accept_invalid_certs v) = some v
  sets_certs _ = none

  abbrev sets_hostnames : Call I C → Option Bool
  sets_hostnames (danger_accept_invalid_hostnames v) = some v
  sets_hostnames _ = none

  abbrev sets_sni : Call I C → Option Bool
  sets_sni (use_sni v) = some v
  sets_sni _ = none

  abbrev sets_built_in : Call I C → Option Bool
  sets_built_in (disable_built_in_roots v) = some v
  sets_built_in _ = none

  abbrev sets_alpn : Call I C → Option (List (List ℕ))
  sets_alpn (request_alpns names) = some names
  sets_alpn _ = none

  -- The value of the last call that sets one, or the default.
  abbrev last : {V : Type 0} → (Call I C → Option V) → V → List (Call I C) → V
  last sets v [] = v
  last sets v (call ∷ calls) = last sets (elim (sets call) [ none ↦ v | some w ↦ w ]) calls

  -- The certificates of the calls that add one.
  abbrev roots : List (Call I C) → List C
  roots [] = []
  roots (add_root_certificate c ∷ calls) = c ∷ roots calls
  roots (_ ∷ calls) = roots calls

  abbrev outcome : TlsConnectorBuilder I C → List (Call I C) → TlsConnectorBuilder I C
  outcome b calls = record {
    identity = last sets_identity b.identity calls;
    min_protocol = last sets_min b.min_protocol calls;
    max_protocol = last sets_max b.max_protocol calls;
    root_certificates = b.root_certificates ++ roots calls;
    accept_invalid_certs = last sets_certs b.accept_invalid_certs calls;
    accept_invalid_hostnames = last sets_hostnames b.accept_invalid_hostnames calls;
    use_sni = last sets_sni b.use_sni calls;
    disable_built_in_roots = last sets_built_in b.disable_built_in_roots calls;
    alpn = last sets_alpn b.alpn calls;
  }

  run_from : (b : TlsConnectorBuilder I C) (calls : List (Call I C)) → run b calls ≡ outcome b calls
  unfolding run
  run_from b [] = rw append-nil
  run_from b (add_root_certificate c ∷ calls) =
      run_from (perform b (add_root_certificate c)) calls ∙ rw append_assoc
  run_from b (call ∷ calls) = run_from (perform b call) calls

  -- After any sequence of calls on a fresh builder each option has the value of the last call that
  -- sets it, or else its default: no identity, a minimum of TLS 1.0, no maximum, certificates and
  -- host names checked, SNI on, built-in roots on, no ALPN. The added roots are there in order.
  pub run_lem :
      (calls : List (Call I C))
      → run (connector_builder I C) calls ≡ record {
        identity = last sets_identity none calls;
        min_protocol = last sets_min (some tlsv10) calls;
        max_protocol = last sets_max none calls;
        root_certificates = roots calls;
        accept_invalid_certs = last sets_certs false calls;
        accept_invalid_hostnames = last sets_hostnames false calls;
        use_sni = last sets_sni true calls;
        disable_built_in_roots = last sets_built_in false calls;
        alpn = last sets_alpn [] calls;
      }
  unfolding connector_builder
  run_lem calls = run_from (connector_builder I C) calls
