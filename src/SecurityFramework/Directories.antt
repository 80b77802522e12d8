-- ===== src/SecurityFramework/Directories.antt =====
-- The temporary directories of src/imp/security_framework.rs: who makes them, and who removes them.
pub mod Held
pub mod Exit
use rust_native_tls.Prelude.{
  ℕ, ◌≡◌, refl, ap, sym, ◌∙◌, Bool, true, false, Option, none, some, List, [], ◌∷◌, starts_with,
  codes, Result, ok, err, panic, Bool-cases, inl, inr, if◌then◌else◌,
}
use rust_native_tls.Prelude.State.{◌>>=◌, continue}
use rust_native_tls.SecurityFramework.Library.{Library}
use rust_native_tls.SecurityFramework.Process.{
  Target, macos, ios, Process, Code, Items, in_system, or_io, drop_dir, with_dir,
}
use rust_native_tls.SecurityFramework.Identity.{
  Identity, no_items, options, pkcs8_guard, random_password, identity_of_items, import_pair,
  from_pkcs8,
}

-- The directories of the process that exist, the newest first, and the calls that change them.
pub record DirLaws (L : Library) : Type 0 where
  pub dirs : L.System → List L.TempDir
  pub temp_dir_new_some :
      (s : L.System) {s' : L.System} {d : L.TempDir}
      → L.temp_dir_new s ≡ (s', some d)
      → dirs s' ≡ d ∷ dirs s
  pub temp_dir_new_none :
      (s : L.System) {s' : L.System} → L.temp_dir_new s ≡ (s', none) → dirs s' ≡ dirs s
  pub remove_dir_lem :
      (d : L.TempDir) (s : L.System) {rest : List L.TempDir}
      → dirs s ≡ d ∷ rest
      → dirs (L.remove_dir d s) ≡ rest
  pub keychain_create_lem :
      (password : List ℕ) (d : L.TempDir) (name : List ℕ) (s : L.System)
      → dirs (L.keychain_create password d name s).0 ≡ dirs s
  pub set_settings_lem : (k : L.SecKeychain) (s : L.System) → dirs (L.set_settings k s).0 ≡ dirs s
  pub copy_bytes_lem : (n : ℕ) (s : L.System) → dirs (L.copy_bytes n s).0 ≡ dirs s
  pub import_items_lem :
      (o : _) (items : _) (bytes : List ℕ) (s : L.System)
      → dirs (L.import_items o items bytes s).0 ≡ dirs s
  pub pkcs12_import_lem :
      (k : Option L.SecKeychain) (pass buf : List ℕ) (s : L.System)
      → dirs (L.pkcs12_import k pass buf s).0 ≡ dirs s

module _ (L : Library) (D : DirLaws L) where
  -- As many directories as before, and the statics as before.
  pub record Same (p q : Process L) : Type 0 where
    pub dirs_same : D.dirs q.system ≡ D.dirs p.system
    pub keychain_same : q.temp_keychain ≡ p.temp_keychain
    pub poisoned_same : q.poisoned ≡ p.poisoned
    pub at_exit_same : q.set_at_exit ≡ p.set_at_exit

  abbrev pub Keeps : {A : Type 0} → Code L A → Type 0
  Keeps m = (p : Process L) → Same p (m p).0

  pub Same-refl : (p : Process L) → Same p p
  Same-refl p = record {
    dirs_same = refl;
    keychain_same = refl;
    poisoned_same = refl;
    at_exit_same = refl;
  }

  pub Same-trans : {p q r : Process L} → Same p q → Same q r → Same p r
  Same-trans a b = record {
    dirs_same = b.dirs_same ∙ a.dirs_same;
    keychain_same = b.keychain_same ∙ a.keychain_same;
    poisoned_same = b.poisoned_same ∙ a.poisoned_same;
    at_exit_same = b.at_exit_same ∙ a.at_exit_same;
  }

  continue-Same :
      {A B : Type 0} (p : Process L) (r : Process L × Result L.BaseError A) (f : A → Code L B)
      → Same p r.0
      → ((a : A) → Keeps (f a))
      → Same p (continue r f).0
  continue-Same p (q, ok a) f s k = Same-trans s (k a q)
  continue-Same p (q, err e) f s k = s
  continue-Same p (q, panic) f s k = s

  pub >>=-Keeps :
      {A B : Type 0} (m : Code L A) (f : A → Code L B)
      → Keeps m
      → ((a : A) → Keeps (f a))
      → Keeps (m >>= f)
  >>=-Keeps m f h k p = continue-Same p (m p) f (h p) k

  pub in_system-Keeps :
      {A : Type 0} (f : L.System → L.System × Result L.BaseError A)
      → ((s : L.System) → D.dirs (f s).0 ≡ D.dirs s)
      → Keeps (in_system L f)
  in_system-Keeps f h p = record {
    dirs_same = h p.system;
    keychain_same = refl;
    poisoned_same = refl;
    at_exit_same = refl;
  }

  pub or_io-Keeps :
      {A : Type 0} (f : L.System → L.System × Option A)
      → ((s : L.System) → D.dirs (f s).0 ≡ D.dirs s)
      → Keeps (or_io L f)
  or_io-Keeps f h p = record {
    dirs_same = h p.system;
    keychain_same = refl;
    poisoned_same = refl;
    at_exit_same = refl;
  }

  with_dir-Same :
      {A : Type 0} (body : L.TempDir → Code L A) (p : Process L) (r : L.System × Option L.TempDir)
      → L.temp_dir_new p.system ≡ r
      → ((d : L.TempDir) → Keeps (body d))
      → Same p (with_dir L body p).0
  with_dir-Same body p (s, none) e k = rw e (record {
    dirs_same = D.temp_dir_new_none p.system e;
    keychain_same = refl;
    poisoned_same = refl;
    at_exit_same = refl;
  })
  with_dir-Same body p (s, some d) e k =
      let kept = k d (record p { system = s }) in
      rw e (record {
        dirs_same = D.remove_dir_lem d _ (kept.dirs_same ∙ D.temp_dir_new_some p.system e);
        keychain_same = kept.keychain_same;
        poisoned_same = kept.poisoned_same;
        at_exit_same = kept.at_exit_same;
      })

  pub with_dir-Keeps :
      {A : Type 0} (body : L.TempDir → Code L A)
      → ((d : L.TempDir) → Keeps (body d))
      → Keeps (with_dir L body)
  with_dir-Keeps body k p = with_dir-Same body p (L.temp_dir_new p.system) refl k

  identity_of_items-Keeps :
      (k : L.SecKeychain) (certs : List L.SecCertificate) → Keeps (identity_of_items L k certs)
  unfolding identity_of_items
  identity_of_items-Keeps k [] = Same-refl
  identity_of_items-Keeps k (cert ∷ rest) = >>=-Keeps _ _ Same-refl (λ ident. Same-refl)

  random_password-Keeps : Keeps (random_password L)
  unfolding random_password
  random_password-Keeps =
      >>=-Keeps _ _ (or_io-Keeps (L.copy_bytes 10) (D.copy_bytes_lem 10)) (λ bytes. Same-refl)

  import_pair-Keeps : (pem key : List ℕ) (d : L.TempDir) → Keeps (import_pair L pem key d)
  unfolding import_pair
  import_pair-Keeps pem key d =
      >>=-Keeps {B = Identity L} (random_password L) _ random_password-Keeps λ password.
        let create = L.keychain_create password d (codes "identity.keychain") in
        >>=-Keeps {B = Identity L} (in_system L create) _
          (in_system-Keeps create (D.keychain_create_lem password d _))
          λ keychain.
            let import_key = L.import_items (options L "key.pem" keychain) (no_items L) key in
            >>=-Keeps {B = Identity L} (in_system L import_key) _
              (in_system-Keeps import_key (D.import_items_lem _ _ key))
              λ items.
                let import_chain = L.import_items (options L "chain.pem" keychain) items pem in
                >>=-Keeps {B = Identity L} (in_system L import_chain) _
                  (in_system-Keeps import_chain (D.import_items_lem _ items pem))
                  λ items'. identity_of_items-Keeps keychain items'.certificates

  -- `from_pkcs8` leaves as many temporary directories as before it, those themselves, and the
  -- shared key chain as it was, whether it succeeds, fails or panics.
  pub from_pkcs8-Same :
      (target : Target) (pem key : List ℕ) (p : Process L)
      → Same p (from_pkcs8 L target pem key p).0
  unfolding from_pkcs8
  from_pkcs8-Same ios pem key p = Same-refl p
  from_pkcs8-Same macos pem key p = elim (Bool-cases (starts_with key pkcs8_guard)) [
    | inl e ↦ rw e (with_dir-Keeps (import_pair L pem key) (import_pair-Keeps pem key) p)
    | inr e ↦ rw e (Same-refl p)
  ]
