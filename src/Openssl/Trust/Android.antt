-- ===== src/Openssl/Trust/Android.antt =====
-- What `load_android_root_certs` of src/imp/openssl.rs adds to a context's store.
use rust_native_tls.Prelude.{
  ℕ, ◌≡◌, refl, ap, ◌∙◌, Option, none, some, List, [], ◌∷◌, ok, err, panic, Result-cases, inl, inr,
}
use rust_native_tls.Openssl.Library.{Library}
use rust_native_tls.Openssl.View.{OptionLaws, ContextLaws}
use rust_native_tls.Openssl.Trust.{
  Dir, unreadable, entries, add_files, read_pem, load_android_root_certs,
}
use rust_native_tls.Openssl.Connector.{add_roots, use_android}
use rust_native_tls.Openssl.Connector.Config.{with_roots, config-add_roots}

module _ (L : Library) where
  open L use {SslContextBuilder, X509, crypto, context}

  -- The certificates of the files that can be read and hold one, in order.
  pub certificates_in : List (Option (Option (List ℕ))) → List X509
  certificates_in [] = []
  certificates_in (none ∷ files) = certificates_in files
  certificates_in (some none ∷ files) = certificates_in files
  certificates_in (some (some bytes) ∷ files) =
      let rest = certificates_in files in
      elim (L.x509_from_pem bytes) [ ok cert ↦ cert ∷ rest | err e ↦ rest | panic ↦ rest ]

  -- The system's certificates on Android, none elsewhere.
  abbrev pub system_roots : Option Dir → List X509
  system_roots none = []
  system_roots (some unreadable) = []
  system_roots (some (entries files)) = certificates_in files

  add_files-add_roots :
      (ctx : SslContextBuilder) (files : List (Option (Option (List ℕ))))
      → add_files L ctx files ≡ add_roots L ctx (certificates_in files)
  unfolding add_files read_pem certificates_in add_roots
  add_files-add_roots ctx [] = refl
  add_files-add_roots ctx (none ∷ files) = add_files-add_roots ctx files
  add_files-add_roots ctx (some none ∷ files) = add_files-add_roots ctx files
  add_files-add_roots ctx (some (some bytes) ∷ files) =
      elim (Result-cases (L.x509_from_pem bytes)) [
        | inl (cert, e) ↦
            rw (certificates_in, e) (add_files-add_roots (L.add_cert ctx cert).0 files)
        | inr (inl (x, e)) ↦ rw (certificates_in, e) (add_files-add_roots ctx files)
        | inr (inr e) ↦ rw (certificates_in, e) (add_files-add_roots ctx files)
      ]

  -- The system's certificates are added as roots are.
  pub use_android-add_roots :
      (ctx : SslContextBuilder) (dir : Option Dir)
      → use_android L ctx dir ≡ add_roots L ctx (system_roots dir)
  unfolding use_android load_android_root_certs add_roots
  use_android-add_roots ctx none = refl
  use_android-add_roots ctx (some unreadable) = refl
  use_android-add_roots ctx (some (entries files)) = add_files-add_roots ctx files

  module _ (O : OptionLaws crypto context) (V : ContextLaws crypto context O) where
    pub config-use_android :
        (ctx : SslContextBuilder) (dir : Option Dir)
        → V.config (use_android L ctx dir) ≡ with_roots L O V (system_roots dir) (V.config ctx)
    config-use_android ctx dir =
        ap V.config (use_android-add_roots ctx dir) ∙ config-add_roots L O V ctx (system_roots dir)
