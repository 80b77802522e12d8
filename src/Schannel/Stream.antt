-- ===== src/Schannel/Stream.antt =====
-- `TlsStream` of src/imp/schannel.rs. `Error` is a newtype around `io::Error`, and stands for it
-- here.
pub mod EndPoint
use Prim.Native.String.{String}
use rust_native_tls.Prelude.{
  ℕ, Bool, true, false, Option, none, some, List, [], ◌∷◌, ◌++◌, codes, length, Result, ok, err,
  panic, same_text, ◌>>=◌, ◌>>◌, ◌==◌, raw_os_error, if◌then◌else◌,
}
use rust_native_tls.Schannel.Library.{Library, Io, Fallible, HashAlgorithm, sha256, sha384, sha512}

-- `SEC_E_NO_CREDENTIALS as i32`, as a bit pattern.
abbrev pub sec_e_no_credentials : ℕ
sec_e_no_credentials = 0x8009030E

-- `e.raw_os_error() == Some(SEC_E_NO_CREDENTIALS as i32)`
abbrev pub has_code : Option ℕ → Bool
has_code none = false
has_code (some code) = code == sec_e_no_credentials

unfoldable pub is_no_credentials : Io → Bool
is_no_credentials e = has_code (raw_os_error e)

-- A certificate, or none where there are no credentials.
unfoldable pub or_none : {C : Type 0} → Fallible C → Fallible (Option C)
unfolding is_no_credentials
or_none (ok cert) = ok (some cert)
or_none (err e) = if is_no_credentials e then ok none else err e
or_none panic = panic

-- `text.rsplit('/').next().unwrap()`: what follows the last slash, or the whole text.
abbrev slash : ℕ
slash = 47

unfoldable pub after_slash : List ℕ → Option (List ℕ)
after_slash [] = none
after_slash (x ∷ xs) =
    let rest = after_slash xs in
    elim rest [ some end ↦ some end | none ↦ if x == slash then some xs else none ]

abbrev segment_of : List ℕ → Option (List ℕ) → List ℕ
segment_of text none = text
segment_of text (some end) = end

unfoldable pub last_segment : List ℕ → List ℕ
last_segment text = segment_of text (after_slash text)

-- The `match` on the hash's name.
unfoldable pub binding_algorithm : List ℕ → Option HashAlgorithm
unfolding same_text
binding_algorithm name =
    if same_text name (codes "MD5")
    then some sha256
    else if same_text name (codes "SHA1")
    then some sha256
    else if same_text name (codes "SHA256")
    then some sha256
    else if same_text name (codes "SHA384")
    then some sha384
    else if same_text name (codes "SHA512")
    then some sha512
    else none

module _ (L : Library) where
  open L use {TlsStream, CertContext}

  unfoldable pub get_ref : TlsStream → L.Socket
  get_ref s = L.get_ref s

  unfoldable pub mid_handshake_get_ref : L.MidHandshakeTlsStream → L.Socket
  mid_handshake_get_ref mid = L.mid_get_ref mid

  -- `get_mut` of both.
  unfoldable pub get_mut : TlsStream → L.Socket × (L.Socket → TlsStream)
  get_mut s = L.get_mut s

  unfoldable pub mid_handshake_get_mut :
      L.MidHandshakeTlsStream → L.Socket × (L.Socket → L.MidHandshakeTlsStream)
  mid_handshake_get_mut mid = L.mid_get_mut mid

  -- `fmt::Debug` of both.
  unfoldable pub debug : TlsStream → String
  debug s = L.stream_debug s

  unfoldable pub mid_handshake_debug : L.MidHandshakeTlsStream → String
  mid_handshake_debug mid = L.mid_debug mid

  unfoldable pub buffered_read_size : TlsStream → Fallible ℕ
  buffered_read_size s = ok (length (L.get_buf s))

  unfoldable pub peer_certificate : TlsStream → Fallible (Option CertContext)
  peer_certificate s = or_none (L.peer_certificate s)

  unfoldable pub negotiated_alpn : TlsStream → Fallible (Option (List ℕ))
  negotiated_alpn s = L.negotiated_application_protocol s

  abbrev pub end_point_certificate : TlsStream → Fallible CertContext
  end_point_certificate s = if L.is_server s then L.certificate s else L.peer_certificate s

  fingerprint_with : CertContext → Option HashAlgorithm → Fallible (Option (List ℕ))
  fingerprint_with cert none = ok none
  fingerprint_with cert (some hash) = do digest ← L.fingerprint cert hash; ok (some digest)

  end_point_of : Option CertContext → Fallible (Option (List ℕ))
  unfolding fingerprint_with
  end_point_of none = ok none
  end_point_of (some cert) = do
    algorithms ← L.sign_hash_algorithms cert
    fingerprint_with cert (binding_algorithm (last_segment algorithms))

  unfoldable pub tls_server_end_point : TlsStream → Fallible (Option (List ℕ))
  unfolding end_point_of
  tls_server_end_point s = do cert ← or_none (end_point_certificate s); end_point_of cert

  unfoldable pub shutdown : TlsStream → TlsStream × Fallible (Unit {0})
  shutdown s = let (s', r) = L.shutdown s in (s', do r; ok tt)

  -- `Read` and `Write`.
  unfoldable pub read : TlsStream → List ℕ → TlsStream × List ℕ × Fallible ℕ
  read s buf = L.read s buf

  unfoldable pub write : TlsStream → List ℕ → TlsStream × Fallible ℕ
  write s buf = L.write s buf

  unfoldable pub flush : TlsStream → TlsStream × Fallible (Unit {0})
  flush s = L.flush s
