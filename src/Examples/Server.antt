-- ===== src/Examples/Server.antt =====
-- examples/simple-server.rs and examples/simple-server-pkcs8.rs: `handle_client`, the closure that
-- each connection's thread runs, and the loop over the incoming connections.
pub mod Threads
pub mod Schedule
pub mod Bounds
pub mod AllServed
pub mod Echo
pub mod Panics
pub mod Answered
use rust_native_tls.Prelude.{
  zeros, ℕ, zero, suc, Option, none, some, List, [], ◌∷◌, ◌++◌, codes, length, take, leb, Result,
  ok, err, panic, is_utf8, if◌then◌else◌,
}
use rust_native_tls.Api.Backend.{Backend}
use rust_native_tls.Api.Errors.{Interruption}
use rust_native_tls.Api.Streams
use rust_native_tls.Api.Connections
use rust_native_tls.Examples.Std.{StreamErrors, after_write, write_all}

-- The two programs, which differ in `handle_client` and in how they read the identity.
pub data Program : Type 0 where
  simple_server simple_server_pkcs8 : Program

-- How a thread ends. A panic ends its thread alone and drops the stream.
pub data Exit (B : Backend) : Type 0 where
  finished : B.TlsStream → Exit B
  panicked : Exit B

-- `format!("received '{}'", received)`
abbrev pub reply_to : List ℕ → List ℕ
reply_to received = codes "received '" ++ received ++ codes "'"

-- `from_utf8(&buf[0..read]).unwrap()`, and the reply to it.
unfoldable pub reply : {E : Type 0} → List ℕ → Result E ℕ → Option (List ℕ)
reply buf (ok n) =
    if leb n (length buf)
    then if is_utf8 (take n buf) then some (reply_to (take n buf)) else none
    else none
reply buf (err e) = none
reply buf panic = none

module _ (B : Backend) (E : StreamErrors B) where
  open B use {TlsStream, StreamError}

  -- `write_all(..).unwrap()`, which ends the thread.
  abbrev pub exit_of : Option (TlsStream × Result StreamError (Unit {0})) → Option (Exit B)
  exit_of none = none
  exit_of (some (s, ok done)) = some (finished s)
  exit_of (some (s, err e)) = some panicked
  exit_of (some (s, panic)) = some panicked

  abbrev pub send : ℕ → TlsStream → Option (List ℕ) → Option (Exit B)
  send fuel s none = some panicked
  send fuel s (some text) = exit_of (write_all B E fuel s text)

  -- `none` means that the fuel, the number of calls of `write`, ran out.
  unfoldable pub handle_client : Program → ℕ → TlsStream → Option (Exit B)
  handle_client simple_server fuel s = some (finished s)
  handle_client simple_server_pkcs8 fuel s =
      let (s', buf, r) = Streams.read B s (zeros 1024) in send fuel s' (reply buf r)

  abbrev pub handled : Program → ℕ → Result (Interruption B) TlsStream → Option (Exit B)
  handled program fuel (ok s) = handle_client program fuel s
  handled program fuel (err e) = some panicked
  handled program fuel panic = some panicked

  -- What a thread runs: `acceptor.accept(stream).unwrap()` and `handle_client`.
  unfoldable pub connection : Program → B.TlsAcceptor → ℕ → B.Socket → Option (Exit B)
  connection program acceptor fuel socket =
      handled program fuel (Connections.accept B acceptor socket)
