-- ===== src/Examples/Client.antt =====
-- examples/google-connect.rs.
pub mod Panics
pub mod Prints
use rust_native_tls.Prelude.{
  ℕ, suc, Option, none, some, List, [], ◌∷◌, ◌++◌, codes, Result, ok, err, panic, ◌>>=◌,
}
use rust_native_tls.Api.Backend.{Backend}
use rust_native_tls.Api.Credentials
use rust_native_tls.Api.Connections
use rust_native_tls.Examples.Std.{StreamErrors, unwrap, write_all, read_to_end}

abbrev pub request : List ℕ
request = codes "GET / HTTP/1.0\r\n\r\n"

-- What the program uses of the standard library: `TcpStream::connect`, `String::from_utf8_lossy`
-- and the room that the vector of `read_to_end` makes. `N` is the error of the network.
pub record Std (B : Backend) (N : Type 0) : Type 0 where
  pub dial : List ℕ → Result N B.Socket
  pub lossy : List ℕ → List ℕ
  pub room : List ℕ → ℕ

module _ (B : Backend) (N : Type 0) (E : StreamErrors B) (S : Std B N) where
  open B use {TlsStream, StreamError}

  -- What `println!("{}", ..)` prints.
  abbrev pub line : List ℕ → List ℕ
  line text = text ++ codes "\n"

  abbrev pub printed :
      Option (TlsStream × Result StreamError (List ℕ)) → Option (Result B.Error (List ℕ))
  printed none = none
  printed (some (s, ok res)) = some (ok (line (S.lossy res)))
  printed (some (s, err e)) = some panic
  printed (some (s, panic)) = some panic

  -- `read_to_end(&mut res).unwrap()` and `println!`, after the `write_all`.
  abbrev pub respond :
      ℕ → Option (TlsStream × Result StreamError (Unit {0})) → Option (Result B.Error (List ℕ))
  respond fuel none = none
  respond fuel (some (s, ok done)) = printed (read_to_end B E (λ res. suc (S.room res)) fuel s [])
  respond fuel (some (s, err e)) = some panic
  respond fuel (some (s, panic)) = some panic

  abbrev pub talk : ℕ → Result B.Error TlsStream → Option (Result B.Error (List ℕ))
  talk fuel (ok s) = respond fuel (write_all B E fuel s request)
  talk fuel (err e) = some panic
  talk fuel panic = some panic

  -- The connection, with the connector of `TlsConnector::new().unwrap()`.
  unfoldable pub connected : Result B.Error B.TlsConnector → Result B.Error TlsStream
  connected connector = do
    connector ← unwrap connector
    socket ← unwrap (S.dial (codes "google.com:443"))
    unwrap (Connections.connect B connector (codes "google.com") socket)

  -- The process after the run, and what the program prints, unless it panics. `none` means that the
  -- fuel, the number of calls of `read` or of `write`, ran out.
  unfoldable pub main : ℕ → B.Process → B.Process × Option (Result B.Error (List ℕ))
  unfolding connected
  main fuel p =
      let (p', connector) = Credentials.connector_new B p in (p', talk fuel (connected connector))
