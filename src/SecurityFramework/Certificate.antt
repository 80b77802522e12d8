-- ===== src/SecurityFramework/Certificate.antt =====
-- `Certificate` of src/imp/security_framework.rs. `Error` stands for the `base::Error` that it holds.
use rust_native_tls.Prelude.{ℕ, none, List, [], ◌∷◌, Result, ok, err}
use rust_native_tls.Prelude.State.{◌>>=◌, lift, panics}
use rust_native_tls.SecurityFramework.Library.{Library}
use rust_native_tls.SecurityFramework.Process.{Target, macos, ios, Code, in_system}
use rust_native_tls.SecurityFramework.Identity.{no_items}

module _ (L : Library) where
  unfoldable pub certificate_from_der : List ℕ → Result L.BaseError L.SecCertificate
  certificate_from_der buf = L.sec_certificate_from_der buf

  -- `certificates.len() == 1 && identities.is_empty() && keys.is_empty()`
  only_certificate :
      List L.SecCertificate
      → List L.SecIdentity
      → List L.SecKey
      → Result L.BaseError L.SecCertificate
  only_certificate (cert ∷ []) [] [] = ok cert
  only_certificate _ _ _ = err (L.from_code L.err_sec_param)

  unfoldable pub certificate_from_pem : Target → List ℕ → Code L L.SecCertificate
  unfolding only_certificate
  certificate_from_pem ios buf = panics
  certificate_from_pem macos buf = do
    items ←
        in_system L (L.import_items (record { filename = none; keychain = none }) (no_items L) buf)
    lift (only_certificate items.certificates items.identities items.keys)

  unfoldable pub certificate_to_der : L.SecCertificate → Result L.BaseError (List ℕ)
  certificate_to_der cert = ok (L.cert_to_der cert)
