-- ===== src/Openssl/Connector/Calls.antt =====
-- The calls on a context that `TlsConnector::new` and `TlsAcceptor::new` of src/imp/openssl.rs make.
pub mod Order
use mathlib.Core.List.{map}
use rust_native_tls.Prelude.{
  ℕ, ◌≡◌, refl, ap, ◌∙◌, sym, Bool, true, false, Option, none, some, List, [], ◌∷◌, ◌++◌, Result,
  ok, err, panic, ◌>>=◌, map_err, Result-cases, inl, inr, ◌⊎◌,
}
use rust_native_tls.Protocol.{Protocol, sslv3, non_exhaustive, IsBound}
use rust_native_tls.Builder.Acceptor.{TlsAcceptorBuilder}
use rust_native_tls.Openssl.Library.{Library}
use rust_native_tls.Openssl.Error.{normal}
use rust_native_tls.Openssl.Identity.{Identity, Fallible, try}
use rust_native_tls.Openssl.Alpn.{alpn_wire_format}
use rust_native_tls.Openssl.Trust.{Dir}
use rust_native_tls.Openssl.Trust.Android.{system_roots, use_android-add_roots}
use rust_native_tls.Openssl.Versions.{map_cvt, supported_protocols, supported_protocols_min_max}
use rust_native_tls.Openssl.Connector.{
  Build, add_chain, use_identity, use_own_store, add_roots, use_alpn, use_android, set_up,
  acceptor_set_up,
}
use rust_native_tls.Openssl.Connector.Config.{version_of}
use rust_native_tls.Openssl.Connector.SetUp.{ConnectorBuilder}

module _ (L : Library) where
  open L use {SslContextBuilder, X509, crypto, context, ErrorStack}

  pub data Call : Type 0 where
    presents chains trusts : X509 → Call
    signs_with : L.PKey → Call
    starts_at ends_at : Option L.SslVersion → Call
    replaces_store : Call
    offers : List ℕ → Call

  abbrev pub make : Call → SslContextBuilder → Result ErrorStack SslContextBuilder
  make (presents cert) ctx = L.set_certificate ctx cert
  make (chains cert) ctx = L.add_extra_chain_cert ctx cert
  make (trusts cert) ctx = ok (L.add_cert ctx cert).0
  make (signs_with key) ctx = L.set_private_key ctx key
  make (starts_at v) ctx = L.set_min_proto_version ctx v
  make (ends_at v) ctx = L.set_max_proto_version ctx v
  make replaces_store ctx = do b ← L.store_builder_new; ok (L.set_cert_store ctx (L.store_build b))
  make (offers wire) ctx = L.set_alpn_protos ctx wire

  -- Calls in order, up to the first that fails.
  unfoldable pub make_all : List Call → SslContextBuilder → Fallible L SslContextBuilder
  make_all [] ctx = ok ctx
  make_all (call ∷ calls) ctx = do ctx ← try L (make call ctx); make_all calls ctx

  -- A result is the failure of a call.
  abbrev pub IsFailure : {A B : Type 0} → Result ErrorStack A → Fallible L B → Type 0
  IsFailure s r =
      ((e : ErrorStack) × (s ≡ err e) × (r ≡ err (normal e))) ⊎ ((s ≡ panic) × (r ≡ panic))

  -- A result is the failure of the first of these calls that fails.
  abbrev pub Breaks : {B : Type 0} → List Call → SslContextBuilder → Fallible L B → Type 0
  Breaks calls ctx r =
      (before : List Call) × (call : Call) × (after : List Call) × (mid : SslContextBuilder)
      × (calls ≡ before ++ call ∷ after)
      × (make_all before ctx ≡ ok mid)
      × IsFailure (make call mid) r

  IsFailure-bind :
      {A B C : Type 0} (s : Result ErrorStack A) (r : Fallible L B) (f : B → Fallible L C)
      → IsFailure s r
      → IsFailure s (r >>= f)
  IsFailure-bind s r f (inl (e, h, k)) = inl (e, h, rw k refl)
  IsFailure-bind s r f (inr (h, k)) = inr (h, rw k refl)

  pub Breaks-bind :
      {B C : Type 0} (calls : List Call) (ctx : SslContextBuilder) (r : Fallible L B)
      (f : B → Fallible L C)
      → Breaks calls ctx r
      → Breaks calls ctx (r >>= f)
  Breaks-bind calls ctx r f (before, call, after, mid, split, made, failure) =
      (before, call, after, mid, split, made, IsFailure-bind (make call mid) r f failure)

  pub make_all-outcome :
      (calls : List Call) (ctx : SslContextBuilder)
      → ((y : SslContextBuilder) × (make_all calls ctx ≡ ok y))
        ⊎ Breaks calls ctx (make_all calls ctx)
  unfolding make_all
  make_all-outcome [] ctx = inl (ctx, refl)
  make_all-outcome (call ∷ calls) ctx = elim (Result-cases (make call ctx)) [
    | inl (ctx₁, e) ↦ elim (make_all-outcome calls ctx₁) [
      | inl (y, h) ↦ inl (y, rw e h)
      | inr (before, c, after, mid, split, made, failure) ↦
          inr (call ∷ before, c, after, mid, ap (λ r. call ∷ r) split, rw e made, rw e failure)
    ]
    | inr (inl (x, e)) ↦ inr ([], call, calls, ctx, refl, refl, inl (x, e, rw e refl))
    | inr (inr e) ↦ inr ([], call, calls, ctx, refl, refl, inr (e, rw e refl))
  ]

  abbrev pub identity_calls : Option (Identity L) → List Call
  identity_calls none = []
  identity_calls (some i) = presents i.cert ∷ signs_with i.pkey ∷ map chains i.chain

  abbrev pub version_calls : Option Protocol → Option Protocol → List Call
  version_calls min max = starts_at (version_of L min) ∷ ends_at (version_of L max) ∷ []

  abbrev pub store_calls : Bool → List Call
  store_calls false = []
  store_calls true = replaces_store ∷ []

  abbrev pub alpn_calls : List (List ℕ) → List Call
  alpn_calls [] = []
  alpn_calls (name ∷ names) = offers (alpn_wire_format (name ∷ names)) ∷ []

  -- The calls that a builder of connectors asks for, where Android's certificates are in `dir`.
  abbrev pub connector_calls : Option Dir → ConnectorBuilder L → List Call
  connector_calls dir b =
      identity_calls b.identity
      ++ (version_calls b.min_protocol b.max_protocol
          ++ (store_calls b.disable_built_in_roots
              ++ (map trusts b.root_certificates
                  ++ (alpn_calls b.alpn ++ map trusts (system_roots L dir)))))

  -- The calls that a builder of acceptors asks for.
  abbrev pub acceptor_calls : TlsAcceptorBuilder (Identity L) → List Call
  acceptor_calls b =
      (signs_with b.identity.pkey ∷ presents b.identity.cert ∷ map chains b.identity.chain)
      ++ version_calls b.min_protocol b.max_protocol
