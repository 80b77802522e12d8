-- ===== src/Api/Policy/OpensslServe.antt =====
-- Acceptors of src/lib.rs over src/imp/openssl.rs, from the builder to the library.
use rust_native_tls.Prelude.State.{continue-eq-ok}
use rust_native_tls.Prelude.{
  ap, ℕ, List, ◌∷◌, starts_with, true, ◌≡◌, refl, Result, ok, sym, ◌∙◌, ok-injective, map_err,
  >>=-eq-ok, map_err->>=-eq-ok,
}
use rust_native_tls.Builder.Acceptor.{TlsAcceptorBuilder, acceptor_builder}
use rust_native_tls.Openssl.Library.{Library}
use rust_native_tls.Openssl.Error.{Error, normal, from_ssl}
use rust_native_tls.Openssl.Identity as OpensslIdentity
use rust_native_tls.Openssl.Identity.{Identity, pkcs8_guard}
use rust_native_tls.Openssl.Identity.Parse.{from_pkcs8-eq-ok}
use rust_native_tls.Openssl.Trust.{Process}
use rust_native_tls.Openssl.View.{OptionLaws, ContextLaws}
use rust_native_tls.Openssl.Connector
use rust_native_tls.Openssl.Connector.{Build, acceptor_set_up}
use rust_native_tls.Openssl.Connector.Acceptor.{served, own_settings, config-acceptor_set_up}
use rust_native_tls.Api.Backend.{Backend}
use rust_native_tls.Api.Openssl
use rust_native_tls.Api.Openssl.{Texts}
use rust_native_tls.Api.Connections.{handshaken, acceptor_build, acceptor_new, accept}
use rust_native_tls.Api.Credentials.{from_pkcs8}

module _ (L : Library) (O : OptionLaws L.crypto L.context) (V : ContextLaws L.crypto L.context O)
    (T : Texts L) (build : Build) where
  abbrev pub backend : Backend
  backend = Openssl.backend L T build

  -- Of a build with `have_min_max_version`: an acceptor that a builder builds is made from a context
  -- of the library's intermediate profile with just the builder's certificate, key, versions and,
  -- after what is there, chain. Accepting is one handshake of it, converted to the public error
  -- type.
  pub acceptor_build-served :
      (b : TlsAcceptorBuilder (Identity L)) (socket : L.Socket) {a : L.SslAcceptor}
      → build.have_min_max_version ≡ true
      → acceptor_build backend b ≡ ok a
      → (ctx : L.SslContextBuilder) × (y : L.SslContextBuilder) × (L.mozilla_intermediate ≡ ok ctx)
        × (V.config y ≡ served L b (V.config ctx))
        × (a ≡ L.build_acceptor y)
        × (accept backend a socket ≡ handshaken backend (map_err (from_ssl L) (L.accept a socket)))
  unfolding acceptor_build Connector.acceptor_new accept Connector.accept
  acceptor_build-served b socket h made =
      let (a, new, same) = >>=-eq-ok (Connector.acceptor_new L build b) _ made in
      let (ctx, fresh, rest) = map_err->>=-eq-ok normal L.mozilla_intermediate _ new in
      let (y, set, last) = >>=-eq-ok (acceptor_set_up L build b ctx) _ rest in
      (
        ctx,
        y,
        fresh,
        config-acceptor_set_up L O V build b ctx h set,
        sym (ok-injective (last ∙ same)),
        refl,
      )

  -- Of a build with `have_min_max_version`: an acceptor that `TlsAcceptor::new` makes of an identity
  -- from `Identity::from_pkcs8` serves the key, which has the PKCS#8 header, with the first
  -- certificate as the leaf and the others, in order, after the chain of the library's intermediate
  -- profile, for TLS 1.0 and later. Accepting is one handshake of that context, converted to the
  -- public error type.
  pub acceptor_new-from_pkcs8 :
      (buf key : List ℕ) (p : Process L) (socket : L.Socket) {p' : Process L} {i : Identity L}
      {a : L.SslAcceptor}
      → build.have_min_max_version ≡ true
      → from_pkcs8 backend buf key p ≡ (p', ok i)
      → acceptor_new backend i ≡ ok a
      → (leaf : L.X509) × (chain : List L.X509) × (pkey : L.PKey) × (ctx : L.SslContextBuilder)
        × (y : L.SslContextBuilder) × (starts_with key pkcs8_guard ≡ true)
        × (L.private_key_from_pem key ≡ ok pkey)
        × (L.stack_from_pem buf ≡ ok (leaf ∷ chain))
        × (L.mozilla_intermediate ≡ ok ctx)
        × (V.config y ≡ own_settings L O V (V.config ctx) leaf pkey chain)
        × (a ≡ L.build_acceptor y)
        × (accept backend a socket ≡ handshaken backend (map_err (from_ssl L) (L.accept a socket)))
  unfolding from_pkcs8 acceptor_new acceptor_builder
  acceptor_new-from_pkcs8 buf key p socket {p'} {i} {a} h read made =
      let (q, j, first, last) = continue-eq-ok (p, OpensslIdentity.from_pkcs8 L buf key) _ read in
      let parsed : OpensslIdentity.from_pkcs8 L buf key ≡ ok i =
        ap (λ (x : Process L × Result (Error L) (Identity L)). x.1) (first ∙ last) in
      let (guarded, keyed, split) = (from_pkcs8-eq-ok L buf key i).0 parsed in
      let (ctx, y, fresh, set, same, run) =
        acceptor_build-served (acceptor_builder i) socket {a = a} h made in
      (i.cert, i.chain, i.pkey, ctx, y, guarded, keyed, split, fresh, set, same, run)
