-- ===== src/Openssl/Connector/Calls/Order.antt =====
-- `TlsConnector::new` and `TlsAcceptor::new` of src/imp/openssl.rs make just the calls that their
-- builders ask for, in order.
use mathlib.Core.List.{map}
use rust_native_tls.Prelude.{
  ℕ, ◌≡◌, refl, ap, ◌∙◌, sym, Bool, true, false, Option, none, some, List, [], ◌∷◌, ◌++◌, Result,
  ok, err, panic, ◌>>=◌, Result-cases, inl, inr,
}
use rust_native_tls.Protocol.{Protocol, sslv3, non_exhaustive, IsBound}
use rust_native_tls.Builder.Acceptor.{TlsAcceptorBuilder}
use rust_native_tls.Openssl.Library.{Library}
use rust_native_tls.Openssl.Identity.{Identity, Fallible, try}
use rust_native_tls.Openssl.Trust.Android.{system_roots, use_android-add_roots}
use rust_native_tls.Openssl.Versions.{map_cvt, supported_protocols, supported_protocols_min_max}
use rust_native_tls.Openssl.Connector.{
  Build, add_chain, use_identity, use_own_store, add_roots, use_alpn, set_up, acceptor_set_up,
}
use rust_native_tls.Openssl.Connector.Config.{version_of}
use rust_native_tls.Openssl.Connector.SetUp.{ConnectorBuilder}
use rust_native_tls.Openssl.Connector.Calls.{
  Call, chains, trusts, make, make_all, identity_calls, version_calls, store_calls, alpn_calls,
  connector_calls, acceptor_calls,
}

module _ (L : Library) where
  open L use {SslContextBuilder, X509, crypto, context, ErrorStack}

  bind-same :
      {A B : Type 0} (r : Fallible L A) {s : Fallible L A} {f g : A → Fallible L B}
      → r ≡ s
      → ((a : A) → f a ≡ g a)
      → r >>= f ≡ s >>= g
  bind-same (ok a) {f = f} {g = g} e h = rw (sym e) (h a)
  bind-same (err x) e h = rw (sym e) refl
  bind-same panic e h = rw (sym e) refl

  make_all-append :
      (xs ys : List (Call L)) (ctx : SslContextBuilder)
      → make_all L (xs ++ ys) ctx ≡ make_all L xs ctx >>= make_all L ys
  unfolding make_all
  make_all-append [] ys ctx = refl
  make_all-append (call ∷ calls) ys ctx = elim (Result-cases (make L call ctx)) [
    | inl (ctx₁, e) ↦ rw e (make_all-append calls ys ctx₁)
    | inr (inl (x, e)) ↦ rw e refl
    | inr (inr e) ↦ rw e refl
  ]

  -- One part of a chain, and then the rest.
  part :
      (xs ys : List (Call L)) (ctx : SslContextBuilder) (r : Fallible L SslContextBuilder)
      {f : SslContextBuilder → Fallible L SslContextBuilder}
      → r ≡ make_all L xs ctx
      → ((c : SslContextBuilder) → f c ≡ make_all L ys c)
      → r >>= f ≡ make_all L (xs ++ ys) ctx
  part xs ys ctx r e h = bind-same r e h ∙ sym (make_all-append xs ys ctx)

  add_chain-make_all :
      (ctx : SslContextBuilder) (chain : List X509)
      → add_chain L ctx chain ≡ make_all L (map chains chain) ctx
  unfolding add_chain make_all
  add_chain-make_all ctx [] = refl
  add_chain-make_all ctx (cert ∷ chain) =
      bind-same (try L (L.add_extra_chain_cert ctx cert)) refl λ ctx. add_chain-make_all ctx chain

  use_identity-make_all :
      (ctx : SslContextBuilder) (i : Option (Identity L))
      → use_identity L ctx i ≡ make_all L (identity_calls L i) ctx
  unfolding use_identity make_all
  use_identity-make_all ctx none = refl
  use_identity-make_all ctx (some i) = bind-same (try L (L.set_certificate ctx i.cert)) refl λ ctx.
      bind-same (try L (L.set_private_key ctx i.pkey)) refl λ ctx. add_chain-make_all ctx i.chain

  map_cvt-ok : (p : Option Protocol) → IsBound p → map_cvt crypto context p ≡ ok (version_of L p)
  unfolding map_cvt
  map_cvt-ok none b = refl
  map_cvt-ok (some non_exhaustive) b = elim b [ ]
  map_cvt-ok (some sslv3) b = refl
  map_cvt-ok (some _) b = refl

  try-last : (r : Result ErrorStack SslContextBuilder) → try L r ≡ try L r >>= λ ctx. ok ctx
  try-last (ok ctx) = refl
  try-last (err e) = refl
  try-last panic = refl

  supported_protocols-make_all :
      (ctx : SslContextBuilder) (min max : Option Protocol)
      → IsBound min
      → IsBound max
      → try L (supported_protocols crypto context true min max ctx)
        ≡ make_all L (version_calls L min max) ctx
  unfolding supported_protocols supported_protocols_min_max make_all
  supported_protocols-make_all ctx min max low high =
      rw (map_cvt-ok min low, map_cvt-ok max high)
        (elim (Result-cases (L.set_min_proto_version ctx (version_of L min))) [
          | inl (ctx₁, e) ↦ rw e (try-last (L.set_max_proto_version ctx₁ (version_of L max)))
          | inr (inl (x, e)) ↦ rw e refl
          | inr (inr e) ↦ rw e refl
        ])

  use_own_store-make_all :
      (ctx : SslContextBuilder) (own : Bool)
      → use_own_store L ctx own ≡ make_all L (store_calls L own) ctx
  unfolding use_own_store make_all
  use_own_store-make_all ctx false = refl
  use_own_store-make_all ctx true = elim (Result-cases L.store_builder_new) [
    | inl (b, e) ↦ rw e refl
    | inr (inl (x, e)) ↦ rw e refl
    | inr (inr e) ↦ rw e refl
  ]

  add_roots-make_all :
      (ctx : SslContextBuilder) (certs : List X509)
      → ok (add_roots L ctx certs) ≡ make_all L (map trusts certs) ctx
  unfolding add_roots make_all
  add_roots-make_all ctx [] = refl
  add_roots-make_all ctx (cert ∷ certs) = add_roots-make_all (L.add_cert ctx cert).0 certs

  use_alpn-make_all :
      (ctx : SslContextBuilder) (names : List (List ℕ))
      → use_alpn L ctx names ≡ make_all L (alpn_calls L names) ctx
  unfolding use_alpn make_all
  use_alpn-make_all ctx [] = refl
  use_alpn-make_all ctx (name ∷ names) = try-last _

  -- With `have_min_max_version`, setting up makes just the calls that the builder asks for.
  pub set_up-make_all :
      (build : Build) (b : ConnectorBuilder L) (ctx : SslContextBuilder)
      → build.have_min_max_version ≡ true
      → IsBound b.min_protocol
      → IsBound b.max_protocol
      → set_up L build b ctx ≡ make_all L (connector_calls L build.android b) ctx
  unfolding set_up
  set_up-make_all build b ctx h low high = rw h (
      part (identity_calls L b.identity) _ ctx _ (use_identity-make_all ctx b.identity) λ ctx₁.
        part (version_calls L b.min_protocol b.max_protocol) _ ctx₁ _
          (supported_protocols-make_all ctx₁ b.min_protocol b.max_protocol low high)
          λ ctx₂.
            part (store_calls L b.disable_built_in_roots) _ ctx₂ _
              (use_own_store-make_all ctx₂ b.disable_built_in_roots)
              λ ctx₃.
                part (map trusts b.root_certificates) _ ctx₃
                  (ok (add_roots L ctx₃ b.root_certificates))
                  (add_roots-make_all ctx₃ b.root_certificates)
                  λ ctx₄.
                    part (alpn_calls L b.alpn) _ ctx₄ _ (use_alpn-make_all ctx₄ b.alpn) λ ctx₅.
                      ap ok (use_android-add_roots L ctx₅ build.android)
                      ∙ add_roots-make_all ctx₅ (system_roots L build.android))

  pub acceptor_set_up-make_all :
      (build : Build) (b : TlsAcceptorBuilder (Identity L)) (ctx : SslContextBuilder)
      → build.have_min_max_version ≡ true
      → IsBound b.min_protocol
      → IsBound b.max_protocol
      → acceptor_set_up L build b ctx ≡ make_all L (acceptor_calls L b) ctx
  unfolding acceptor_set_up make_all
  acceptor_set_up-make_all build b ctx h low high =
      let i = b.identity in
      rw h (
        bind-same (try L (L.set_private_key ctx i.pkey)) refl λ ctx₁.
          bind-same (try L (L.set_certificate ctx₁ i.cert)) refl λ ctx₂.
            part (map chains i.chain) (version_calls L b.min_protocol b.max_protocol) ctx₂ _
              (add_chain-make_all ctx₂ i.chain)
              λ ctx₃. supported_protocols-make_all ctx₃ b.min_protocol b.max_protocol low high)
