-- ===== src/SecurityFramework/Stream.antt =====
-- `TlsStream` of src/imp/security_framework.rs. `Error` stands for the `base::Error` that it holds.
pub mod Alpn
pub mod EndPoint
use Prim.Native.String.{String}
use rust_native_tls.Prelude.{
  ℕ, Bool, Option, none, some, List, [], ◌∷◌, length, ltb, ◌==◌, Result, ok, err, panic, ◌>>=◌,
  ◌>>◌, if◌then◌else◌,
}
use rust_native_tls.SecurityFramework.Library.{Library}
use rust_native_tls.SecurityFramework.Process.{Target, macos, ios}
use rust_native_tls.SecurityFramework.Digest.{Digest, hash, digest_of_property, signature_property}
use rust_native_tls.SecurityFramework.Connector.{TlsStream, MidHandshakeTlsStream, server, client}

module _ (L : Library) where
  abbrev pub Fallible : Type 0 → Type 0
  Fallible A = Result L.BaseError A

  unfoldable pub get_ref : TlsStream L → L.Socket
  get_ref s = L.get_ref s.stream

  -- `MidHandshakeTlsStream::get_ref`
  unfoldable pub mid_handshake_get_ref : MidHandshakeTlsStream L → L.Socket
  mid_handshake_get_ref (server mid cert) = L.server_get_ref mid
  mid_handshake_get_ref (client mid) = L.client_get_ref mid

  -- `MidHandshakeTlsStream::get_mut`
  unfoldable pub mid_handshake_get_mut :
      MidHandshakeTlsStream L → L.Socket × (L.Socket → MidHandshakeTlsStream L)
  mid_handshake_get_mut (server mid cert) =
      let (socket, put) = L.server_get_mut mid in (socket, λ changed. server (put changed) cert)
  mid_handshake_get_mut (client mid) =
      let (socket, put) = L.client_get_mut mid in (socket, λ changed. client (put changed))

  -- `fmt::Debug` of both.
  unfoldable pub debug : TlsStream L → String
  debug s = L.stream_debug s.stream

  unfoldable pub mid_handshake_debug : MidHandshakeTlsStream L → String
  mid_handshake_debug (server mid cert) = L.server_debug mid
  mid_handshake_debug (client mid) = L.client_debug mid

  unfoldable pub buffered_read_size : TlsStream L → Fallible ℕ
  buffered_read_size s = L.buffered_read_size s.stream

  certificate_of : Option L.SecTrust → Fallible (Option L.SecCertificate)
  certificate_of none = ok none
  certificate_of (some trust) = do L.evaluate trust; ok (L.certificate_at_index trust 0)

  unfoldable pub peer_certificate : TlsStream L → Fallible (Option L.SecCertificate)
  unfolding certificate_of
  peer_certificate s = do trust ← L.peer_trust2 s.stream; certificate_of trust

  -- The first protocol, if there is one.
  first_of : List (List ℕ) → Option (List ℕ)
  first_of [] = none
  first_of (protocol ∷ rest) = some protocol

  -- The arms of the `match`. `assert!` panics.
  alpn_of : Fallible (List (List ℕ)) → Fallible (Option (List ℕ))
  unfolding first_of
  alpn_of (ok protocols) = if ltb (length protocols) 2 then ok (first_of protocols) else panic
  alpn_of (err e) = if L.code e == L.err_sec_param then ok none else err e
  alpn_of panic = panic

  unfoldable pub negotiated_alpn : TlsStream L → Fallible (Option (List ℕ))
  unfolding alpn_of
  negotiated_alpn s = alpn_of (L.alpn_protocols_of s.stream)

  -- The certificate of the stream, or else that of the peer.
  end_point_certificate : TlsStream L → Option L.SecCertificate → Fallible (Option L.SecCertificate)
  unfolding peer_certificate
  end_point_certificate s (some cert) = ok (some cert)
  end_point_certificate s none = peer_certificate s

  hash_with : L.SecCertificate → Option Digest → Fallible (Option (List ℕ))
  unfolding hash
  hash_with cert none = ok none
  hash_with cert (some digest) = do binding ← hash L digest (L.cert_to_der cert); ok (some binding)

  end_point_of : Option L.SecCertificate → Fallible (Option (List ℕ))
  unfolding hash_with signature_property digest_of_property
  end_point_of none = ok none
  end_point_of (some cert) = do
    property ← signature_property L (L.properties cert)
    hash_with cert (digest_of_property L property)

  unfoldable pub tls_server_end_point : Target → TlsStream L → Fallible (Option (List ℕ))
  unfolding end_point_certificate end_point_of
  tls_server_end_point ios s = ok none
  tls_server_end_point macos s = do cert ← end_point_certificate s s.cert; end_point_of cert

  abbrev with_stream : TlsStream L → L.SslStream → TlsStream L
  with_stream s stream = record s { stream = stream }

  unfoldable pub get_mut : TlsStream L → L.Socket × (L.Socket → TlsStream L)
  get_mut s =
      let (socket, put) = L.get_mut s.stream in (socket, λ changed. with_stream s (put changed))

  unfoldable pub shutdown : TlsStream L → TlsStream L × Result L.StreamError (Unit {0})
  shutdown s = let (stream, r) = L.close s.stream in (with_stream s stream, r)

  unfoldable pub read : TlsStream L → List ℕ → TlsStream L × List ℕ × Result L.StreamError ℕ
  read s buf = let (stream, buf', r) = L.read s.stream buf in (with_stream s stream, buf', r)

  unfoldable pub write : TlsStream L → List ℕ → TlsStream L × Result L.StreamError ℕ
  write s buf = let (stream, r) = L.write s.stream buf in (with_stream s stream, r)

  unfoldable pub flush : TlsStream L → TlsStream L × Result L.StreamError (Unit {0})
  flush s = let (stream, r) = L.flush s.stream in (with_stream s stream, r)
