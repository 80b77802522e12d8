-- ===== src/Api/Errors.antt =====
-- `Error` and `HandshakeError` of src/lib.rs.
use Prim.Native.String.{String}
use rust_native_tls.Prelude.{◌≡◌, refl, Option, none, some}
use rust_native_tls.Api.Backend.{Backend, HandshakeError, failure, would_block}

module _ (B : Backend) where
  -- The methods of `Error`.
  unfoldable pub error_source : B.Error → Option B.Cause
  error_source e = B.source e

  unfoldable pub error_display : B.Error → String
  error_display e = B.display e

  unfoldable pub error_debug : B.Error → String
  error_debug e = B.debug e

  abbrev pub Interruption : Type 0
  Interruption = HandshakeError B.Error B.MidHandshakeTlsStream

  -- `From<imp::HandshakeError<S>> for HandshakeError<S>`, on the variant.
  converted : Interruption → Interruption
  converted (failure e) = failure e
  converted (would_block mid) = would_block mid

  unfoldable pub from_imp : B.ImpHandshakeError → Interruption
  unfolding converted
  from_imp e = converted (B.variant e)

  unfoldable pub source : Interruption → Option B.Error
  source (failure e) = some e
  source (would_block mid) = none

  unfoldable pub display : Interruption → String
  unfolding error_display
  display (failure e) = error_display e
  display (would_block mid) = "the handshake process was interrupted"

  converted_same : (v : Interruption) → converted v ≡ v
  unfolding converted
  converted_same (failure e) = refl
  converted_same (would_block mid) = refl

  -- The conversion keeps the variant.
  pub from_imp_lem : (e : B.ImpHandshakeError) → from_imp e ≡ B.variant e
  unfolding from_imp
  from_imp_lem e = converted_same (B.variant e)
