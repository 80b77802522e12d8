-- ===== src/Openssl/Trust.antt =====
-- `init_trust` and `load_android_root_certs` of src/imp/openssl.rs.
pub mod Android
use rust_native_tls.Prelude.{
  ℕ, Bool, true, false, Option, none, some, List, [], ◌∷◌, ok, err, panic,
}
use rust_native_tls.Openssl.Library.{Library}

-- The process: whether `ONCE` has run, and the environment.
pub record Process (L : Library) : Type 0 where
  pub once : Bool
  pub env : L.Env

-- What the code sees of a directory: `read_dir` fails, or gives entries that may fail, each with
-- the result of reading the file.
pub data Dir : Type 0 where
  unreadable : Dir
  entries : List (Option (Option (List ℕ))) → Dir

module _ (L : Library) where
  abbrev pub call_once : Process L → Bool → Process L
  call_once p true = p
  call_once p false = record { once = true; env = L.init_ssl_cert_env_vars p.env }

  unfoldable pub init_trust : Process L → Process L
  init_trust p = call_once p p.once

  -- `X509::from_pem(&b).ok()`
  read_pem : Option (Option (List ℕ)) → Option L.X509
  read_pem none = none
  read_pem (some none) = none
  read_pem (some (some bytes)) = elim (L.x509_from_pem bytes) [
    | ok cert ↦ some cert
    | err e ↦ none
    | panic ↦ none
  ]

  -- The loop over the certificates. What `add_cert` says is only logged.
  add_files : L.SslContextBuilder → List (Option (Option (List ℕ))) → L.SslContextBuilder
  add_files ctx [] = ctx
  add_files ctx (file ∷ rest) =
      add_files (elim (read_pem file) [ none ↦ ctx | some cert ↦ (L.add_cert ctx cert).0 ]) rest

  unfoldable pub load_android_root_certs : Dir → L.SslContextBuilder → L.SslContextBuilder
  unfolding add_files read_pem
  load_android_root_certs unreadable ctx = ctx
  load_android_root_certs (entries files) ctx = add_files ctx files
