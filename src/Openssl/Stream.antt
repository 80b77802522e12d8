-- ===== src/Openssl/Stream.antt =====
-- `TlsStream` of src/imp/openssl.rs.
pub mod EndPoint
use Prim.Native.String.{String}
use rust_native_tls.Prelude.{
  ℕ, Bool, Option, none, some, List, Result, ok, err, panic, ◌>>=◌, ◌||◌, IoError, custom, other,
  if◌then◌else◌,
}
use rust_native_tls.Openssl.Library.{Library}
use rust_native_tls.Openssl.Identity.{Fallible, try}

module _ (L : Library) where
  open L use {SslStream, SslError}

  unfoldable pub get_ref : SslStream → L.Socket
  get_ref s = L.stream_get_ref s

  unfoldable pub mid_handshake_get_ref : L.MidHandshakeSslStream → L.Socket
  mid_handshake_get_ref mid = L.mid_get_ref mid

  -- `get_mut` of both.
  unfoldable pub get_mut : SslStream → L.Socket × (L.Socket → SslStream)
  get_mut s = L.stream_get_mut s

  unfoldable pub mid_handshake_get_mut :
      L.MidHandshakeSslStream → L.Socket × (L.Socket → L.MidHandshakeSslStream)
  mid_handshake_get_mut mid = L.mid_get_mut mid

  -- `fmt::Debug` of both.
  unfoldable pub debug : SslStream → String
  debug s = L.stream_debug s

  unfoldable pub mid_handshake_debug : L.MidHandshakeSslStream → String
  mid_handshake_debug mid = L.mid_debug mid

  unfoldable pub buffered_read_size : SslStream → Fallible L ℕ
  buffered_read_size s = ok (L.pending s)

  unfoldable pub peer_certificate : SslStream → Fallible L (Option L.X509)
  peer_certificate s = ok (L.peer_certificate s)

  unfoldable pub negotiated_alpn : SslStream → Fallible L (Option (List ℕ))
  negotiated_alpn s = ok (L.selected_alpn_protocol s)

  abbrev pub end_point_certificate : SslStream → Option L.X509
  end_point_certificate s = if L.is_server s then L.certificate s else L.peer_certificate s

  -- `match signature_algorithms.digest { Nid::MD5 | Nid::SHA1 => sha256, nid => from_nid(nid) }`
  unfoldable pub binding_digest : L.Nid → Option L.MessageDigest
  binding_digest nid =
      if L.nid_eq nid L.md5 || L.nid_eq nid L.sha1 then some L.sha256 else L.from_nid nid

  digest_with : L.X509 → Option L.MessageDigest → Fallible L (Option (List ℕ))
  digest_with cert none = ok none
  digest_with cert (some md) = do digest ← try L (L.x509_digest cert md); ok (some digest)

  digest_by_algorithm : L.X509 → Option L.Nid → Fallible L (Option (List ℕ))
  unfolding digest_with
  digest_by_algorithm cert none = ok none
  digest_by_algorithm cert (some nid) = digest_with cert (binding_digest nid)

  end_point_of : Option L.X509 → Fallible L (Option (List ℕ))
  unfolding digest_by_algorithm
  end_point_of none = ok none
  end_point_of (some cert) =
      digest_by_algorithm cert (L.signature_digest (L.signature_algorithm cert))

  unfoldable pub tls_server_end_point : SslStream → Fallible L (Option (List ℕ))
  unfolding end_point_of
  tls_server_end_point s = end_point_of (end_point_certificate s)

  -- `e.into_io_error().unwrap_or_else(|e| io::Error::new(io::ErrorKind::Other, e))`
  into_io : Result SslError (IoError SslError) → Result (IoError SslError) (Unit {0})
  into_io (ok e) = err e
  into_io (err e) = err (custom other e)
  into_io panic = panic

  shut_down : Result SslError (Unit {0}) → Result (IoError SslError) (Unit {0})
  unfolding into_io
  shut_down (ok u) = ok tt
  shut_down (err e) =
      if L.code_eq (L.error_code e) L.zero_return then ok tt else into_io (L.into_io_error e)
  shut_down panic = panic

  unfoldable pub shutdown : SslStream → SslStream × Result (IoError SslError) (Unit {0})
  unfolding shut_down
  shutdown s = let (s', r) = L.shutdown s in (s', shut_down r)

  -- `Read` and `Write`.
  unfoldable pub read : SslStream → List ℕ → SslStream × List ℕ × Result (IoError SslError) ℕ
  read s buf = L.read s buf

  unfoldable pub write : SslStream → List ℕ → SslStream × Result (IoError SslError) ℕ
  write s buf = L.write s buf

  unfoldable pub flush : SslStream → SslStream × Result (IoError SslError) (Unit {0})
  flush s = L.flush s
