-- ===== src/Api/Streams.antt =====
-- `TlsStream` of src/lib.rs.
use Prim.Native.String.{String}
use rust_native_tls.Prelude.{ℕ, Option, List, Result, ok, ◌>>=◌, ◌>>◌}
use rust_native_tls.Api.Backend.{Backend}

module _ (B : Backend) where
  open B use {TlsStream, StreamError}

  -- `fmt::Debug`
  unfoldable pub debug : TlsStream → String
  debug s = B.stream_debug s

  unfoldable pub get_ref : TlsStream → B.Socket
  get_ref s = B.get_ref s

  -- The inner stream, and the stream once it is changed.
  unfoldable pub get_mut : TlsStream → B.Socket × (B.Socket → TlsStream)
  get_mut s = B.get_mut s

  unfoldable pub buffered_read_size : TlsStream → Result B.Error ℕ
  buffered_read_size s = do size ← B.buffered_read_size s; ok size

  unfoldable pub peer_certificate : TlsStream → Result B.Error (Option B.Certificate)
  peer_certificate s = do cert ← B.peer_certificate s; ok cert

  unfoldable pub tls_server_end_point : TlsStream → Result B.Error (Option (List ℕ))
  tls_server_end_point s = do binding ← B.tls_server_end_point s; ok binding

  unfoldable pub negotiated_alpn : TlsStream → Result B.Error (Option (List ℕ))
  negotiated_alpn s = do protocol ← B.negotiated_alpn s; ok protocol

  unfoldable pub shutdown : TlsStream → TlsStream × Result StreamError (Unit {0})
  shutdown s = let (s', r) = B.shutdown s in (s', do r; ok tt)

  unfoldable pub read : TlsStream → List ℕ → TlsStream × List ℕ × Result StreamError ℕ
  read s buf = B.read s buf

  unfoldable pub write : TlsStream → List ℕ → TlsStream × Result StreamError ℕ
  write s buf = B.write s buf

  unfoldable pub flush : TlsStream → TlsStream × Result StreamError (Unit {0})
  flush s = B.flush s
