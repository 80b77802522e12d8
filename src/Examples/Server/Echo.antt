-- ===== src/Examples/Server/Echo.antt =====
-- What a connection of simple-server-pkcs8 sends to its peer.
use rust_native_tls.Prelude.{
  ℕ, ◌≡◌, refl, ap, ◌∙◌, subst, Option, none, some, List, ◌++◌, true, arith, Result, ok, err, panic,
  is_utf8, take, zeros,
}
use rust_native_tls.Api.Backend.{Backend}
use rust_native_tls.Api.Errors.{Interruption}
use rust_native_tls.Api.Streams
use rust_native_tls.Api.Connections
use rust_native_tls.Examples.Std.{StreamErrors, write_all}
use rust_native_tls.Examples.Wire.{Wire, write_all-sent}
use rust_native_tls.Examples.Server.{
  finished, simple_server_pkcs8, reply, reply_to, send, exit_of, handle_client, handled, connection,
}

-- A reply holds what was read, which is text.
pub reply-eq-some :
    {E : Type 0} (buf : List ℕ) (r : Result E ℕ) (text : List ℕ)
    → reply buf r ≡ some text
    → (n : ℕ) × (r ≡ ok n) × (is_utf8 (take n buf) ≡ true) × (text ≡ reply_to (take n buf))
unfolding reply
reply-eq-some buf (ok n) text h = (n, refl, ground arith, ground arith)
reply-eq-some buf (err e) text h = cc
reply-eq-some buf panic text h = cc

module _ (B : Backend) (E : StreamErrors B) (W : Wire B) where
  open B use {TlsStream, StreamError}

  exit_of-finished :
      (r : Option (TlsStream × Result StreamError (Unit {0}))) (t : TlsStream)
      → exit_of B E r ≡ some (finished t)
      → r ≡ some (t, ok tt)
  exit_of-finished none t h = cc
  exit_of-finished (some (s, ok u)) t h = cc
  exit_of-finished (some (s, err e)) t h = cc
  exit_of-finished (some (s, panic)) t h = cc

  abbrev Echoes : TlsStream → TlsStream → List ℕ → List ℕ → Type 0
  Echoes s t received later =
      (W.ahead s ≡ received ++ later)
      × (is_utf8 received ≡ true)
      × (W.sent t ≡ W.sent s ++ reply_to received)

  -- After a call of `read` that took `received` from what was ahead.
  send-sent :
      (fuel : ℕ) (s t : TlsStream) (text : Option (List ℕ))
      → send B E fuel s text ≡ some (finished t)
      → (reply : List ℕ) × (text ≡ some reply) × (W.sent t ≡ W.sent s ++ reply)
  send-sent fuel s t none h = cc
  send-sent fuel s t (some text) h = (
    text,
    refl,
    write_all-sent B E W fuel s t text (exit_of-finished (write_all B E fuel s text) t h),
  )

  handle_client-Echoes :
      (fuel : ℕ) (s t : TlsStream)
      → handle_client B E simple_server_pkcs8 fuel s ≡ some (finished t)
      → (received : List ℕ) × (later : List ℕ) × Echoes s t received later
  unfolding handle_client Streams.read
  handle_client-Echoes fuel s t h =
      let (u, buf, r) = B.read s (zeros 1024) in
      let (text, replied, sent) = send-sent fuel u t (reply buf r) h in
      let (n, e, valid, same) = reply-eq-some buf r text replied in
      (
        take n buf,
        W.ahead u,
        (
          W.read-ok s u (zeros 1024) buf n (ap (λ x. (u, buf, x)) e),
          valid,
          subst (λ x. W.sent t ≡ x ++ reply_to (take n buf)) (W.read-sent s (zeros 1024))
              (sent ∙ ap (λ x. W.sent u ++ x) same),
        ),
      )

  handled-Echoes :
      (fuel : ℕ) (r : Result (Interruption B) TlsStream) (t : TlsStream)
      → handled B E simple_server_pkcs8 fuel r ≡ some (finished t)
      → (s : TlsStream) × (received : List ℕ) × (later : List ℕ) × (r ≡ ok s)
        × Echoes s t received later
  handled-Echoes fuel (ok s) t h =
      let (received, later, echoes) = handle_client-Echoes fuel s t h in
      (s, received, later, refl, echoes)
  handled-Echoes fuel (err e) t h = cc
  handled-Echoes fuel panic t h = cc

  -- Where a connection of simple-server-pkcs8 ends without a panic: what it read is text, and the
  -- reply to it was sent.
  pub connection-echoes :
      (acceptor : B.TlsAcceptor) (fuel : ℕ) (socket : B.Socket) (t : TlsStream)
      → connection B E simple_server_pkcs8 acceptor fuel socket ≡ some (finished t)
      → (s : TlsStream) × (received : List ℕ) × (later : List ℕ) × (Connections.accept B acceptor
            socket
          ≡ ok s)
        × (W.ahead s ≡ received ++ later)
        × (is_utf8 received ≡ true)
        × (W.sent t ≡ W.sent s ++ reply_to received)
  unfolding connection
  connection-echoes acceptor fuel socket t h =
      let (s, received, later, done, (told, text, replied)) =
        handled-Echoes fuel (Connections.accept B acceptor socket) t h in
      (s, received, later, done, told, text, replied)
