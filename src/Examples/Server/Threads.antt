-- ===== src/Examples/Server/Threads.antt =====
-- The thread of a connection of the example servers, a call of the stream at a time.
use rust_native_tls.Prelude.{
  ℕ, suc, ◌≡◌, Option, none, some, List, [], ◌∷◌, Result, ok, err, panic, zeros, arith,
}
use rust_native_tls.Api.Backend.{Backend}
use rust_native_tls.Api.Streams
use rust_native_tls.Api.Connections
use rust_native_tls.Api.Errors.{Interruption}
use rust_native_tls.Examples.Std.{StreamErrors, after_write, go_on, write_all}
use rust_native_tls.Examples.Total.{write_all-more}
use rust_native_tls.Examples.Server.{
  Program, simple_server, simple_server_pkcs8, Exit, finished, panicked, reply, send, exit_of,
  handle_client, handled, connection,
}

-- Where a thread is: before `accept`, before `read`, in `write_all` with the rest of the buffer,
-- or at its end.
pub data Thread (B : Backend) : Type 0 where
  accepting : B.Socket → Thread B
  reading : B.TlsStream → Thread B
  writing : B.TlsStream → List ℕ → Thread B
  ended : Exit B → Thread B

module _ (B : Backend) (E : StreamErrors B) (program : Program) (acceptor : B.TlsAcceptor) where
  open B use {TlsStream, StreamError}

  -- The start of `handle_client`.
  abbrev pub handling : Program → TlsStream → Thread B
  handling simple_server s = ended (finished s)
  handling simple_server_pkcs8 s = reading s

  abbrev pub accepted : Program → Result (Interruption B) TlsStream → Thread B
  accepted p (ok s) = handling p s
  accepted p (err e) = ended panicked
  accepted p panic = ended panicked

  abbrev pub replying : TlsStream → Option (List ℕ) → Thread B
  replying s none = ended panicked
  replying s (some text) = writing s text

  abbrev pub written : TlsStream → Result StreamError (List ℕ) → Thread B
  written s (ok rest) = writing s rest
  written s (err e) = ended panicked
  written s panic = ended panicked

  -- One call of the thread.
  unfoldable pub advance : Thread B → Thread B
  advance (accepting socket) = accepted program (Connections.accept B acceptor socket)
  advance (reading s) =
      let (s', buf, r) = Streams.read B s (zeros 1024) in replying s' (reply buf r)
  advance (writing s []) = ended (finished s)
  advance (writing s (b ∷ bs)) =
      let (s', r) = Streams.write B s (b ∷ bs) in written s' (after_write B E (b ∷ bs) r)
  advance (ended exit) = ended exit

  -- How a thread ends that is run on its own with so much fuel.
  abbrev pub exit_from : ℕ → Thread B → Option (Exit B)
  exit_from fuel (accepting socket) = connection B E program acceptor fuel socket
  exit_from fuel (reading s) = handle_client B E simple_server_pkcs8 fuel s
  exit_from fuel (writing s rest) = exit_of B E (write_all B E fuel s rest)
  exit_from fuel (ended exit) = some exit

  send-more :
      (fuel : ℕ) (s : TlsStream) (text : Option (List ℕ)) {exit : Exit B}
      → send B E fuel s text ≡ some exit
      → send B E (suc fuel) s text ≡ some exit
  send-more fuel s none h = h
  send-more fuel s (some text) h = ground (arith, write_all-more B E fuel s text)

  handle_client-more :
      (p : Program) (fuel : ℕ) (s : TlsStream) {exit : Exit B}
      → handle_client B E p fuel s ≡ some exit
      → handle_client B E p (suc fuel) s ≡ some exit
  unfolding handle_client
  handle_client-more simple_server fuel s h = h
  handle_client-more simple_server_pkcs8 fuel s h =
      let (s', buf, r) = Streams.read B s (zeros 1024) in send-more fuel s' (reply buf r) h

  exit_from-accepted :
      (fuel : ℕ) (p : Program) (r : Result (Interruption B) TlsStream) {exit : Exit B}
      → exit_from fuel (accepted p r) ≡ some exit
      → handled B E p (suc fuel) r ≡ some exit
  unfolding handle_client
  exit_from-accepted fuel simple_server (ok s) h = h
  exit_from-accepted fuel simple_server_pkcs8 (ok s) h =
      handle_client-more simple_server_pkcs8 fuel s h
  exit_from-accepted fuel p (err e) h = h
  exit_from-accepted fuel p panic h = h

  exit_from-written :
      (fuel : ℕ) (s : TlsStream) (r : Result StreamError (List ℕ)) {exit : Exit B}
      → exit_from fuel (written s r) ≡ some exit
      → exit_of B E (go_on B E (write_all B E fuel s) s r) ≡ some exit
  exit_from-written fuel s (ok rest) h = h
  exit_from-written fuel s (err e) h = h
  exit_from-written fuel s panic h = h

  exit_from-replying :
      (fuel : ℕ) (s : TlsStream) (text : Option (List ℕ)) {exit : Exit B}
      → exit_from fuel (replying s text) ≡ some exit
      → send B E (suc fuel) s text ≡ some exit
  exit_from-replying fuel s none h = h
  exit_from-replying fuel s (some text) h = send-more fuel s (some text) h

  -- How a thread ends on its own does not change when it makes a call.
  pub exit_from-advance :
      (fuel : ℕ) (t : Thread B) {exit : Exit B}
      → exit_from fuel (advance t) ≡ some exit
      → exit_from (suc fuel) t ≡ some exit
  unfolding advance connection handle_client write_all
  exit_from-advance fuel (accepting socket) h =
      exit_from-accepted fuel program (Connections.accept B acceptor socket) h
  exit_from-advance fuel (reading s) h =
      let (s', buf, r) = Streams.read B s (zeros 1024) in exit_from-replying fuel s' (reply buf r) h
  exit_from-advance fuel (writing s []) h = h
  exit_from-advance fuel (writing s (b ∷ bs)) h =
      let (s', r) = Streams.write B s (b ∷ bs) in
      exit_from-written fuel s' (after_write B E (b ∷ bs) r) h
  exit_from-advance fuel (ended exit) h = h
