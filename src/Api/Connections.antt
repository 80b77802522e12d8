-- ===== src/Api/Connections.antt =====
-- `TlsConnector`, `TlsAcceptor` and `MidHandshakeTlsStream` of src/lib.rs, and the methods of
-- `Certificate` that leave the process alone.
use Prim.Native.String.{String}
use rust_native_tls.Prelude.{ℕ, ◌≡◌, refl, List, Result, ok, err, panic, ◌>>=◌, map_err}
use rust_native_tls.Builder.Acceptor.{TlsAcceptorBuilder, acceptor_builder}
use rust_native_tls.Api.Backend.{Backend}
use rust_native_tls.Api.Errors.{Interruption, from_imp}

module _ (B : Backend) where
  abbrev pub Handshaken : Type 0
  Handshaken = Result (Interruption B) B.TlsStream

  unfoldable pub from_der : List ℕ → Result B.Error B.Certificate
  from_der der = do cert ← B.from_der der; ok cert

  unfoldable pub to_der : B.Certificate → Result B.Error (List ℕ)
  to_der cert = do der ← B.to_der cert; ok der

  -- `fmt::Debug` of `MidHandshakeTlsStream`.
  unfoldable pub mid_debug : B.MidHandshakeTlsStream → String
  mid_debug mid = B.mid_debug mid

  -- `MidHandshakeTlsStream::get_ref`
  unfoldable pub mid_get_ref : B.MidHandshakeTlsStream → B.Socket
  mid_get_ref mid = B.mid_get_ref mid

  -- `MidHandshakeTlsStream::get_mut`: the inner stream, and the handshake once it is changed.
  unfoldable pub mid_get_mut :
      B.MidHandshakeTlsStream → B.Socket × (B.Socket → B.MidHandshakeTlsStream)
  mid_get_mut mid = B.mid_get_mut mid

  -- The arms of the `match` on a backend's handshake.
  unfoldable pub handshaken : Result B.ImpHandshakeError B.TlsStream → Handshaken
  unfolding from_imp
  handshaken (ok s) = ok s
  handshaken (err e) = err (from_imp B e)
  handshaken panic = panic

  -- `MidHandshakeTlsStream::handshake`
  unfoldable pub handshake : B.MidHandshakeTlsStream → Handshaken
  unfolding handshaken
  handshake mid = handshaken (B.handshake mid)

  -- `TlsConnector::connect`, whose `?` converts the error.
  unfoldable pub connect : B.TlsConnector → List ℕ → B.Socket → Handshaken
  unfolding from_imp
  connect self domain stream = do s ← map_err (from_imp B) (B.connect self domain stream); ok s

  unfoldable pub acceptor_build : TlsAcceptorBuilder B.Identity → Result B.Error B.TlsAcceptor
  acceptor_build builder = do acceptor ← B.acceptor_new builder; ok acceptor

  -- `TlsAcceptor::new`
  unfoldable pub acceptor_new : B.Identity → Result B.Error B.TlsAcceptor
  unfolding acceptor_build
  acceptor_new identity = acceptor_build (acceptor_builder identity)

  unfoldable pub accept : B.TlsAcceptor → B.Socket → Handshaken
  unfolding handshaken
  accept self stream = handshaken (B.accept self stream)

  -- The conversion by `?` is that of the `match`.
  pub connect-handshaken :
      (r : Result B.ImpHandshakeError B.TlsStream) → map_err (from_imp B) r >>= ok ≡ handshaken r
  unfolding handshaken
  connect-handshaken (ok s) = refl
  connect-handshaken (err e) = refl
  connect-handshaken panic = refl
