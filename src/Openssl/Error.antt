-- ===== src/Openssl/Error.antt =====
-- `Error` of src/imp/openssl.rs, its conversions, and `HandshakeError` with the conversion from the
-- library's.
use Prim.Native.String.{String, ◌++◌}
use rust_native_tls.Prelude.{Bool, true, false, Option, none}
use rust_native_tls.Openssl.Library.{
  Library, SslHandshakeError, setup_failure, failure, would_block,
}

pub data Error (L : Library) : Type 0 where
  normal : L.ErrorStack → Error L
  ssl : L.SslError → L.X509VerifyResult → Error L
  empty_chain : Error L
  not_pkcs8 : Error L

-- `enum HandshakeError<S>`
pub data HandshakeError (L : Library) : Type 0 where
  failed : Error L → HandshakeError L
  blocked : L.MidHandshakeSslStream → HandshakeError L

module _ (L : Library) where
  -- `error::Error::source`, by the sources of the library's errors.
  unfoldable pub source :
      {D : Type 0} → (L.ErrorStack → Option D) → (L.SslError → Option D) → Error L → Option D
  source stack_source ssl_source (normal e) = stack_source e
  source stack_source ssl_source (ssl e v) = ssl_source e
  source stack_source ssl_source empty_chain = none
  source stack_source ssl_source not_pkcs8 = none

  -- `fmt::Display`, by the texts of the library's errors.
  unfoldable pub display :
      (L.ErrorStack → String)
      → (L.SslError → String)
      → (L.X509VerifyResult → String)
      → (L.X509VerifyResult → Bool)
      → Error L
      → String
  display stack_text ssl_text verify_text is_ok (normal e) = stack_text e
  display stack_text ssl_text verify_text is_ok (ssl e v) = elim (is_ok v) [
    | true ↦ ssl_text e
    | false ↦ ssl_text e ++ " (" ++ verify_text v ++ ")"
  ]
  display stack_text ssl_text verify_text is_ok empty_chain =
      "at least one certificate must be provided to create an identity"
  display stack_text ssl_text verify_text is_ok not_pkcs8 = "expected PKCS#8 PEM"

  -- `fmt::Debug`, derived.
  unfoldable pub debug : Error L → String
  debug (normal e) = "Normal(" ++ L.stack_debug e ++ ")"
  debug (ssl e v) = "Ssl(" ++ L.ssl_debug e ++ ", " ++ L.verify_debug v ++ ")"
  debug empty_chain = "EmptyChain"
  debug not_pkcs8 = "NotPkcs8"

  -- `From<ssl::HandshakeError<S>> for HandshakeError<S>`
  unfoldable pub from_ssl : SslHandshakeError L.crypto L.context L.session → HandshakeError L
  from_ssl (setup_failure e) = failed (normal e)
  from_ssl (failure mid) = failed (ssl (L.into_error mid) (L.verify_result mid))
  from_ssl (would_block mid) = blocked mid

  -- `From<ErrorStack> for HandshakeError<S>`
  unfoldable pub from_stack : L.ErrorStack → HandshakeError L
  from_stack e = failed (normal e)
