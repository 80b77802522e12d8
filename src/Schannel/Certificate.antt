-- ===== src/Schannel/Certificate.antt =====
-- `Certificate` of src/imp/schannel.rs, and the loops of `Identity::from_pkcs8` over certificates.
-- `Error` is a newtype around `io::Error`, and stands for it here.
use Prim.Native.String.{String}
use rust_native_tls.Prelude.{
  ℕ, suc, Option, none, some, List, [], ◌∷◌, length, ok, err, panic, ◌>>=◌, custom, invalid_input,
  is_utf8, if◌then◌else◌,
}
use rust_native_tls.Schannel.Library.{Library, Io, Fallible, always}
use rust_native_tls.Schannel.Pem.{new, collect}

-- `io::Error::new(io::ErrorKind::InvalidInput, message)`
abbrev pub invalid : String → Io
invalid message = custom invalid_input message

-- `PemBlock::new(pem)`, run to its end. A text has fewer blocks than it has bytes and one, so the
-- fuel never runs out.
enough : Option (Fallible (List (List ℕ))) → Fallible (List (List ℕ))
enough (some r) = r
enough none = panic

unfoldable pub pem_blocks : List ℕ → Fallible (List (List ℕ))
unfolding enough
pem_blocks pem = do it ← new pem; enough (collect (suc (length pem)) it)

module _ (L : Library) where
  open L use {CertContext, CertStore}

  unfoldable pub certificate_from_der : List ℕ → Fallible CertContext
  certificate_from_der buf = L.cert_new buf

  unfoldable pub certificate_from_pem : List ℕ → Fallible CertContext
  certificate_from_pem buf =
      if is_utf8 buf
      then L.cert_from_pem buf
      else err (invalid "PEM representation contains non-UTF-8 bytes")

  unfoldable pub certificate_to_der : CertContext → Fallible (List ℕ)
  certificate_to_der cert = ok (L.cert_to_der cert)

  -- `for int_cert in cert_iter { ... }`, with the context of the certificate added last.
  unfoldable pub add_rest : CertStore → CertContext → List (List ℕ) → Fallible CertContext
  add_rest store context [] = ok context
  add_rest store context (block ∷ blocks) = do
    cert ← certificate_from_pem block
    added ← L.add_cert store cert always
    add_rest added.0 added.1 blocks
