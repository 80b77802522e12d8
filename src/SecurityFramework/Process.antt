-- ===== src/SecurityFramework/Process.antt =====
-- The state that the identities of src/imp/security_framework.rs change: two statics and the system,
-- in which temporary directories come and go.
use rust_native_tls.Prelude.{Bool, Option, Result, ok_or}
use rust_native_tls.Prelude.State.{M, ◌>>=◌}
use rust_native_tls.SecurityFramework.Library.{Library, SecItems}

-- What the crate is built for.
pub data Target : Type 0 where
  macos ios : Target

-- The statics `TEMP_KEYCHAIN` and `SET_AT_EXIT`, and the system. `poisoned` is the mutex of the
-- first: a panic while it is locked poisons it.
pub record Process (L : Library) : Type 0 where
  pub temp_keychain : Option (L.SecKeychain × L.TempDir)
  pub poisoned : Bool
  pub set_at_exit : Bool
  pub system : L.System

module _ (L : Library) where
  open L use {SecCertificate, TempDir}

  abbrev pub Code : Type 0 → Type 0
  Code A = M (Process L) L.BaseError A

  abbrev pub Items : Type 0
  Items = SecItems SecCertificate L.SecIdentity L.SecKey

  -- A call that changes the system.
  abbrev pub in_system : {A : Type 0} → (L.System → L.System × Result L.BaseError A) → Code A
  in_system f p = let (s, r) = f p.system in (record p { system = s }, r)

  -- A call whose failure becomes `errSecIO`.
  abbrev pub or_io : {A : Type 0} → (L.System → L.System × Option A) → Code A
  or_io f = in_system λ s. let (s', r) = f s in (s', ok_or r (L.from_code L.err_sec_io))

  abbrev pub drop_dir : TempDir → Process L → Process L
  drop_dir dir p = record p { system = L.remove_dir dir p.system }

  -- Code with a local directory, which is dropped at its end, a panic included.
  abbrev pub with_dir : {A : Type 0} → (TempDir → Code A) → Code A
  with_dir body = do
    dir ← or_io L.temp_dir_new
    λ p. let (p', r) = body dir p in (drop_dir dir p', r)
