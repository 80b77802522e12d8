-- ===== src/Examples/Setup.antt =====
-- `main` of examples/simple-server.rs and examples/simple-server-pkcs8.rs up to the loop over the
-- incoming connections: the identity, the acceptor and the listener.
pub mod Serves
pub mod Openssl
use rust_native_tls.Prelude.{ℕ, List, [], Result, codes}
use rust_native_tls.Prelude.State.{M, ◌>>=◌, lift, pure}
use rust_native_tls.Api.Backend.{Backend}
use rust_native_tls.Api.Credentials
use rust_native_tls.Api.Connections
use rust_native_tls.Examples.Std.{unwrap}
use rust_native_tls.Examples.Server.{Program, simple_server, simple_server_pkcs8}
use rust_native_tls.Examples.Server.Schedule.{Server, Incoming}

-- `File::open` with `read_to_end`, and `TcpListener::bind` with what `incoming()` of the listener
-- yields. `N` is the error of the system.
pub record System (B : Backend) (N : Type 0) : Type 0 where
  pub read_file : List ℕ → Result N (List ℕ)
  pub bind : List ℕ → Result N (List (Incoming B.Socket N))

abbrev pub unwrapped : {S E A : Type 0} → M S E A → M S E A
unwrapped m s = let (s', r) = m s in (s', unwrap r)

module _ (B : Backend) (N : Type 0) (S : System B N) where
  -- The bytes of a file, or a panic.
  abbrev pub file : List ℕ → Credentials.Code B (List ℕ)
  file path = lift (unwrap (S.read_file path))

  unfoldable pub identity : Program → Credentials.Code B B.Identity
  identity simple_server = do
    pkcs12 ← file (codes "identity.pfx")
    unwrapped (Credentials.from_pkcs12 B pkcs12 (codes "hunter2"))
  identity simple_server_pkcs8 = do
    certs ← file (codes "test/cert.pem")
    key ← file (codes "test/key.pem")
    unwrapped (Credentials.from_pkcs8 B certs key)

  -- The acceptor, and the server before its loop.
  unfoldable pub main : Program → Credentials.Code B (B.TlsAcceptor × Server B N)
  unfolding identity
  main program = do
    identity ← identity program
    acceptor ← lift (unwrap (Connections.acceptor_new B identity))
    incoming ← lift (unwrap (S.bind (codes "0.0.0.0:8443")))
    pure (acceptor, record { incoming = incoming; threads = [] })
