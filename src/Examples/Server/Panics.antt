-- ===== src/Examples/Server/Panics.antt =====
-- Why a connection of simple-server-pkcs8 panics.
use rust_native_tls.Prelude.{
  ℕ, ◌<◌, ◌≡◌, ◌∙◌, ap, subst, refl, false, inl, inr, ◌⊎◌, Option, none, some, List, length, take,
  zeros, arith, Result, ok, err, panic, is_ok, is_utf8, leb, Bool-cases, Option-cases,
}
use rust_native_tls.Api.Backend.{Backend}
use rust_native_tls.Api.Errors.{Interruption}
use rust_native_tls.Api.Streams
use rust_native_tls.Api.Connections
use rust_native_tls.Examples.Std.{StreamErrors, write_all}
use rust_native_tls.Examples.Server.Echo.{reply-eq-some}
use rust_native_tls.Examples.Server.{
  panicked, simple_server_pkcs8, reply, reply_to, send, exit_of, handle_client, handled, connection,
}

-- A call of `read` failed, or what it says it read is not in the buffer or is no text.
abbrev pub IsUnread : {E : Type 0} → List ℕ → Result E ℕ → Type 0
IsUnread {E} buf r =
    (is_ok r ≡ false) ⊎ ((n : ℕ) × (r ≡ ok n) × ((length buf < n) ⊎ (is_utf8 (take n buf) ≡ false)))

reply-IsUnread : {E : Type 0} (buf : List ℕ) (r : Result E ℕ) → reply buf r ≡ none → IsUnread buf r
unfolding reply
reply-IsUnread buf (ok n) h = inr (
  n,
  refl,
  elim (Bool-cases (leb n (length buf))) [
    | inl l ↦ inr (ground arith)
    | inr l ↦ inl (ground arith)
  ],
)
reply-IsUnread buf (err e) h = inl refl
reply-IsUnread buf panic h = inl refl

module _ (B : Backend) (E : StreamErrors B) where
  open B use {TlsStream, StreamError}

  -- The reply to what was read was not sent in whole.
  abbrev pub IsUnsent : ℕ → TlsStream → List ℕ → Result StreamError ℕ → Type 0
  IsUnsent fuel s buf r =
      (n : ℕ) × (t : TlsStream) × (failure : Result StreamError (Unit {0})) × (r ≡ ok n)
      × (write_all B E fuel s (reply_to (take n buf)) ≡ some (t, failure))
      × (is_ok failure ≡ false)

  -- The read of the connection over this stream, or its reply, failed.
  abbrev pub IsBroken : ℕ → TlsStream → Type 0
  IsBroken fuel s =
      let (t, buf, r) = Streams.read B s (zeros 1024) in IsUnread buf r ⊎ IsUnsent fuel t buf r

  exit_of-panicked :
      (r : Option (TlsStream × Result StreamError (Unit {0})))
      → exit_of B E r ≡ some panicked
      → (t : TlsStream) × (failure : Result StreamError (Unit {0})) × (r ≡ some (t, failure))
        × (is_ok failure ≡ false)
  exit_of-panicked none h = cc
  exit_of-panicked (some (s, ok u)) h = cc
  exit_of-panicked (some (s, err e)) h = (s, err e, refl, refl)
  exit_of-panicked (some (s, panic)) h = (s, panic, refl, refl)

  send-IsBroken :
      (fuel : ℕ) (t : TlsStream) (buf : List ℕ) (r : Result StreamError ℕ)
      → send B E fuel t (reply buf r) ≡ some panicked
      → IsUnread buf r ⊎ IsUnsent fuel t buf r
  send-IsBroken fuel t buf r h = elim (Option-cases (reply buf r)) [
    | inl e ↦ inl (reply-IsUnread buf r e)
    | inr (text, e) ↦
        let (n, read, valid, same) = reply-eq-some buf r text e in
        let (u, failure, wrote, failed) =
          exit_of-panicked (write_all B E fuel t (reply_to (take n buf)))
            (subst (λ x. send B E fuel t x ≡ some panicked) (e ∙ ap some same) h) in
        inr (n, u, failure, read, wrote, failed)
  ]

  handle_client-IsBroken :
      (fuel : ℕ) (s : TlsStream)
      → handle_client B E simple_server_pkcs8 fuel s ≡ some panicked
      → IsBroken fuel s
  unfolding handle_client
  handle_client-IsBroken fuel s h =
      let (t, buf, r) = Streams.read B s (zeros 1024) in send-IsBroken fuel t buf r h

  -- The handshake failed, or the connection over its stream.
  abbrev pub HasPanicked : ℕ → Result (Interruption B) TlsStream → Type 0
  HasPanicked fuel r = (is_ok r ≡ false) ⊎ ((s : TlsStream) × (r ≡ ok s) × IsBroken fuel s)

  handled-HasPanicked :
      (fuel : ℕ) (r : Result (Interruption B) TlsStream)
      → handled B E simple_server_pkcs8 fuel r ≡ some panicked
      → HasPanicked fuel r
  handled-HasPanicked fuel (ok s) h = inr (s, refl, handle_client-IsBroken fuel s h)
  handled-HasPanicked fuel (err e) h = inl refl
  handled-HasPanicked fuel panic h = inl refl

  pub connection-HasPanicked :
      (acceptor : B.TlsAcceptor) (fuel : ℕ) (socket : B.Socket)
      → connection B E simple_server_pkcs8 acceptor fuel socket ≡ some panicked
      → HasPanicked fuel (Connections.accept B acceptor socket)
  unfolding connection
  connection-HasPanicked acceptor fuel socket h =
      handled-HasPanicked fuel (Connections.accept B acceptor socket) h
