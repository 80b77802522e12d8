-- ===== src/SecurityFramework/Pkcs12.antt =====
-- `Identity::from_pkcs12` of src/imp/security_framework.rs, with the key chain that all its calls
-- share and the handler that drops it at exit.
pub mod Chain
use rust_native_tls.Prelude.{
  keep, ℕ, Bool, true, false, not, Option, none, some, List, [], ◌∷◌, codes, same_text, Result, ok,
  err, panic, if◌then◌else◌,
}
use rust_native_tls.Prelude.State.{◌>>=◌, ◌>>◌, lift, pure, fail, panics}
use rust_native_tls.SecurityFramework.Library.{Library, ImportedIdentity}
use rust_native_tls.SecurityFramework.Process.{
  Target, macos, ios, Process, Code, in_system, or_io, drop_dir,
}
use rust_native_tls.SecurityFramework.Identity.{Identity}

-- `imports.pop()`
unfoldable pub pop {ℓ} : {A : Type ℓ} → List A → Option A
pop [] = none
pop (x ∷ []) = some x
pop (x ∷ y ∷ rest) = pop (y ∷ rest)

module _ (L : Library) where
  open L use {SecCertificate, SecKeychain, TempDir}

  abbrev pub Import : Type 0
  Import = ImportedIdentity SecCertificate L.SecIdentity

  -- `SET_AT_EXIT.call_once(...)`, which registers `atexit`.
  abbrev pub register : Code L (Unit {0})
  register p = (record p { set_at_exit = true }, ok tt)

  unfoldable pub make_keychain : List ℕ → TempDir → Code L SecKeychain
  make_keychain pass dir = do
    keychain ← in_system L (L.keychain_create pass dir (codes "tmp.keychain"))
    in_system L (L.set_settings keychain)
    pure keychain

  -- A key chain that is made goes to the static with its directory. Where it cannot be made the
  -- directory is dropped.
  unfoldable pub kept :
      TempDir
      → Process L × Result L.BaseError SecKeychain
      → Process L × Result L.BaseError SecKeychain
  kept dir (p, ok keychain) = (record p { temp_keychain = some (keychain, dir) }, ok keychain)
  kept dir (p, err e) = (drop_dir L dir p, err e)
  kept dir (p, panic) = (drop_dir L dir p, panic)

  -- The arms of `match *TEMP_KEYCHAIN.lock().unwrap()`.
  unfoldable pub keychain_of : List ℕ → Option (SecKeychain × TempDir) → Code L SecKeychain
  unfolding make_keychain kept
  keychain_of pass (some (keychain, dir)) = pure keychain
  keychain_of pass none = do dir ← or_io L L.temp_dir_new; λ p. kept dir (make_keychain pass dir p)

  -- The end of the lock: a panic under it poisons the mutex.
  unfoldable pub unlocked :
      {A : Type 0} → Process L × Result L.BaseError A → Process L × Result L.BaseError A
  unlocked (p, ok a) = (p, ok a)
  unlocked (p, err e) = (p, err e)
  unlocked (p, panic) = (record p { poisoned = true }, panic)

  unfoldable pub shared_keychain : List ℕ → Code L SecKeychain
  unfolding keychain_of unlocked
  shared_keychain pass p =
      if p.poisoned then (p, panic) else unlocked (keychain_of pass p.temp_keychain p)

  unfoldable pub import_options : Target → List ℕ → List ℕ → Code L (List Import)
  unfolding shared_keychain
  import_options ios buf pass = in_system L (L.pkcs12_import none pass buf)
  import_options macos buf pass = do
    register
    keychain ← shared_keychain pass
    in_system L (L.pkcs12_import (some keychain) pass buf)

  unfoldable pub chain_of : Option (List SecCertificate) → List SecCertificate
  chain_of none = []
  chain_of (some chain) = chain

  unfoldable pub with_chain : L.SecIdentity → Option (List SecCertificate) → Code L (Identity L)
  unfolding chain_of keep
  with_chain identity chain = do
    cert ← lift (L.identity_certificate identity)
    let differs = λ (c : SecCertificate). not (same_text (L.cert_to_der c) (L.cert_to_der cert))
    pure (record { identity = identity; chain = keep differs (chain_of chain) })

  -- `import.identity.expect(...)`
  unfoldable pub identity_of :
      Option L.SecIdentity → Option (List SecCertificate) → Code L (Identity L)
  unfolding with_chain
  identity_of none chain = panics
  identity_of (some identity) chain = with_chain identity chain

  -- `imports.pop().unwrap()`
  unfoldable pub from_last : Option Import → Code L (Identity L)
  unfolding identity_of
  from_last none = panics
  from_last (some import) = identity_of import.identity import.cert_chain

  unfoldable pub from_pkcs12 : Target → List ℕ → List ℕ → Code L (Identity L)
  unfolding import_options from_last pop
  from_pkcs12 target buf pass = do imports ← import_options target buf pass; from_last (pop imports)

  unfoldable pub drop_held : Option (SecKeychain × TempDir) → Process L → Process L
  drop_held none p = p
  drop_held (some (keychain, dir)) p = drop_dir L dir (record p { temp_keychain = none })

  -- The end of the process: `atexit` runs if it is registered. With a poisoned mutex it aborts.
  unfoldable pub at_exit : Process L → Process L
  unfolding drop_held
  at_exit p = if p.set_at_exit then (if p.poisoned then p else drop_held p.temp_keychain p) else p
