-- ===== src/Examples/Server/Answered.antt =====
-- A connection of simple-server-pkcs8 ends, and with what.
use rust_native_tls.Prelude.{ℕ, ◌≡◌, true, some, List, ◌++◌, ok, is_utf8}
use rust_native_tls.Api.Backend.{Backend}
use rust_native_tls.Api.Connections
use rust_native_tls.Examples.Std.{StreamErrors}
use rust_native_tls.Examples.Wire.{Wire}
use rust_native_tls.Examples.Server.{
  Exit, finished, panicked, simple_server_pkcs8, reply_to, connection,
}
use rust_native_tls.Examples.Server.Echo.{connection-echoes}
use rust_native_tls.Examples.Server.Panics.{HasPanicked, connection-HasPanicked}
use rust_native_tls.Examples.Server.Bounds.{IsSteady, connection_total}

module _ (B : Backend) (E : StreamErrors B) (W : Wire B) (steady : IsSteady B E)
    (acceptor : B.TlsAcceptor) where
  -- The connection answered what it read, or has a reason to panic.
  abbrev pub IsAnswered : B.Socket → Exit B → Type 0
  IsAnswered socket (finished t) =
      (s : B.TlsStream) × (received : List ℕ) × (later : List ℕ) × (Connections.accept B acceptor
          socket
        ≡ ok s)
      × (W.ahead s ≡ received ++ later)
      × (is_utf8 received ≡ true)
      × (W.sent t ≡ W.sent s ++ reply_to received)
  IsAnswered socket panicked = HasPanicked B E 1038 (Connections.accept B acceptor socket)

  exit-IsAnswered :
      (socket : B.Socket) (exit : Exit B)
      → connection B E simple_server_pkcs8 acceptor 1038 socket ≡ some exit
      → IsAnswered socket exit
  exit-IsAnswered socket (finished t) h = connection-echoes B E W acceptor 1038 socket t h
  exit-IsAnswered socket panicked h = connection-HasPanicked B E acceptor 1038 socket h

  -- Over a stream whose reads and writes pass bytes as documented, whose writes are not interrupted
  -- and whose reads keep the length of the buffer: a connection of simple-server-pkcs8 ends, with
  -- fuel for 1038 calls of `write`. Unless it panics it has accepted the handshake, read some UTF-8
  -- text that its peer sent, and sent `received '..'` around that text, whole and once. It panics
  -- only where the handshake did not succeed, where the call of `read` did not, where the bytes it
  -- says it read are no UTF-8 text or more than the buffer, or where a `write_all` of the reply to
  -- them did not succeed.
  pub connection-IsAnswered :
      (socket : B.Socket)
      → (exit : Exit B) × (connection B E simple_server_pkcs8 acceptor 1038 socket ≡ some exit)
        × IsAnswered socket exit
  connection-IsAnswered socket =
      let (exit, h) = connection_total B ℕ E simple_server_pkcs8 acceptor steady socket in
      (exit, h, exit-IsAnswered socket exit h)
