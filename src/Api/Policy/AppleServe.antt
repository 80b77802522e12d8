-- ===== src/Api/Policy/AppleServe.antt =====
-- Acceptors of src/lib.rs over src/imp/security_framework.rs, from the builder to the library.
use Prim.Native.String.{String}
use rust_native_tls.Prelude.{Result, ◌≡◌, ◌⊎◌, inl, inr, refl, ap, Option, some, ok, err, panic}
use rust_native_tls.Builder.Acceptor.{TlsAcceptorBuilder}
use rust_native_tls.SecurityFramework.Library.{Library}
use rust_native_tls.SecurityFramework.Process.{Target}
use rust_native_tls.SecurityFramework.Identity.{Identity}
use rust_native_tls.SecurityFramework.Connector
use rust_native_tls.SecurityFramework.Connector.Serve
use rust_native_tls.Protocol.{IsBound}
use rust_native_tls.Api.Errors.{Interruption}
use rust_native_tls.SecurityFramework.Connector.{TlsStream, Handshaken, TlsAcceptor, server_stream}
use rust_native_tls.SecurityFramework.Connector.Serve.{
  ServerLaws, version_of, HasRefusal, HasRefusal-map, accept-IsServed,
}
use rust_native_tls.Api.Backend.{Backend, failure}
use rust_native_tls.Api.Apple
use rust_native_tls.Api.Connections.{handshaken, acceptor_build, accept}

module _ (L : Library) (G : ServerLaws L) (target : Target) (Cause : Type 0)
    (source : L.BaseError → Option Cause) (text : L.BaseError → String) where
  abbrev pub backend : Backend
  backend = Apple.backend L target Cause source text

  abbrev pub acceptor_of : TlsAcceptorBuilder (Identity L) → TlsAcceptor L
  acceptor_of b = record {
    identity = b.identity;
    min_protocol = b.min_protocol;
    max_protocol = b.max_protocol;
  }

  -- What `accept` returns is what one handshake of the library gave, converted to the public error
  -- type, of a context with just the builder's versions, identity and chain, and it goes with the
  -- certificate of that identity.
  abbrev pub IsServed : TlsAcceptorBuilder (Identity L) → L.Socket → Type 0
  IsServed b socket =
      (ctx : L.SslContext) × (cert : L.SecCertificate) × (G.settings ctx ≡ record {
        min = version_of L b.min_protocol;
        max = version_of L b.max_protocol;
        own = some (b.identity.identity, b.identity.chain);
      })
      × (L.identity_certificate b.identity.identity ≡ ok cert)
      × (accept backend (acceptor_of b) socket
          ≡ handshaken backend (server_stream L (some cert) (L.server_handshake ctx socket)))

  -- A result is the failure of a call of the library.
  abbrev pub IsFailure :
      (A : Type 0) → Result L.BaseError A → Result (Interruption backend) (TlsStream L) → Type 0
  IsFailure A s r =
      ((e : L.BaseError) × (s ≡ err e) × (r ≡ err (failure e))) ⊎ ((s ≡ panic) × (r ≡ panic))

  handshaken-IsFailure :
      (A : Type 0) (s : Result L.BaseError A) (r : Handshaken L)
      → Serve.IsFailure L s r
      → IsFailure A s (handshaken backend r)
  unfolding handshaken
  handshaken-IsFailure A s r (inl (e, h, k)) = inl (e, h, ap (handshaken backend) k)
  handshaken-IsFailure A s r (inr (h, k)) = inr (h, ap (handshaken backend) k)

  -- A builder always builds an acceptor. Where its bounds are absent or real versions, accepting
  -- with that acceptor gives what one handshake of the library gave, converted to the public error
  -- type, of a context with just the builder's versions, identity and chain, along with the
  -- certificate of that identity. Or it is the failure of a call before the handshake: of the one
  -- that makes the context, sets one of those versions or sets the identity and the chain, or of the
  -- one that copies the certificate.
  pub acceptor_build-IsServed :
      (b : TlsAcceptorBuilder (Identity L)) (socket : L.Socket)
      → IsBound b.min_protocol
      → IsBound b.max_protocol
      → (acceptor_build backend b ≡ ok (acceptor_of b))
        × (IsServed b socket
            ⊎ HasRefusal L
                (λ A s. IsFailure A s (accept backend (acceptor_of b) socket))
                (acceptor_of b))
  unfolding acceptor_build Connector.acceptor_new accept
  acceptor_build-IsServed b socket low high =
      let a = acceptor_of b in
      let r = Connector.accept L a socket in
      (
        refl,
        elim (accept-IsServed L G a socket low high) [
          | inl (ctx, cert, set, own, run) ↦ inl (ctx, cert, set, own, ap (handshaken backend) run)
          | inr x ↦ inr (
              HasRefusal-map L (λ A s. Serve.IsFailure L s r)
                (λ A s. IsFailure A s (handshaken backend r)) a (λ A s. handshaken-IsFailure A s r)
                x)
        ],
      )
