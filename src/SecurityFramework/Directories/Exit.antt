-- ===== src/SecurityFramework/Directories/Exit.antt =====
-- The temporary directories of a process that makes identities with
-- src/imp/security_framework.rs, and at its end.
use rust_native_tls.Prelude.{
  ◌⊎◌, ℕ, ◌≡◌, refl, ap, sym, ◌∙◌, Bool, true, false, none, some, List, [], ◌∷◌, Bool-cases, inl,
  inr, if◌then◌else◌,
}
use rust_native_tls.SecurityFramework.Library.{Library}
use rust_native_tls.SecurityFramework.Process.{Target, Process}
use rust_native_tls.SecurityFramework.Identity.{from_pkcs8}
use rust_native_tls.SecurityFramework.Pkcs12.{from_pkcs12, drop_held, at_exit}
use rust_native_tls.SecurityFramework.Directories.{DirLaws, from_pkcs8-Same}
use rust_native_tls.SecurityFramework.Directories.Held.{
  Slot, held, Registers, IsHeld, Same-IsHeld, Registers-same, from_pkcs12-IsHeld,
}

module _ (L : Library) (D : DirLaws L) where
  drop_held-dirs :
      (k : Slot L D) (p : Process L)
      → D.dirs p.system ≡ held L D k
      → D.dirs (drop_held L k p).system ≡ []
  unfolding drop_held
  drop_held-dirs none p h = h
  drop_held-dirs (some (keychain, dir)) p h = D.remove_dir_lem dir p.system h

  unregistered : (k : Slot L D) (b : Bool) → Registers L D k b → b ≡ false → held L D k ≡ []
  unregistered none b r e = refl
  unregistered (some k) b r e = cc

  if-dirs :
      (b : Bool) (x y : Process L)
      → (b ≡ true → D.dirs x.system ≡ [])
      → (b ≡ false → D.dirs y.system ≡ [])
      → D.dirs (if b then x else y).system ≡ []
  if-dirs true x y h k = h refl
  if-dirs false x y h k = k refl

  at_exit-dirs :
      (p : Process L) → IsHeld L D p → (p.poisoned ≡ true) ⊎ (D.dirs (at_exit L p).system ≡ [])
  unfolding at_exit
  at_exit-dirs p h = elim (Bool-cases p.poisoned) [
    | inl u ↦ inl u
    | inr u ↦ inr (
        if-dirs p.set_at_exit _ p
          (λ e.
            if-dirs p.poisoned p _ (λ f. cc (f, u))
              (λ f. drop_held-dirs p.temp_keychain p h.dirs_held))
          (λ e. h.dirs_held ∙ unregistered p.temp_keychain p.set_at_exit h.registers e))
  ]

-- A call that makes an identity.
pub data Call : Type 0 where
  pkcs8 pkcs12 : List ℕ → List ℕ → Call

module _ (L : Library) where
  -- The process after a call, whatever it returns, and after some.
  abbrev pub made : Target → Process L → Call → Process L
  made target p (pkcs8 pem key) = (from_pkcs8 L target pem key p).0
  made target p (pkcs12 buf pass) = (from_pkcs12 L target buf pass p).0

  pub make_all : Target → List Call → Process L → Process L
  make_all target [] p = p
  make_all target (call ∷ calls) p = make_all target calls (made target p call)

  module _ (D : DirLaws L) where
    make_all-IsHeld :
        (target : Target) (calls : List Call) (p : Process L)
        → IsHeld L D p
        → IsHeld L D (make_all target calls p)
    unfolding make_all
    make_all-IsHeld target [] p h = h
    make_all-IsHeld target (pkcs8 pem key ∷ calls) p h =
        make_all-IsHeld target calls (from_pkcs8 L target pem key p).0
          (Same-IsHeld L D (from_pkcs8-Same L D target pem key p) h)
    make_all-IsHeld target (pkcs12 buf pass ∷ calls) p h =
        make_all-IsHeld target calls (from_pkcs12 L target buf pass p).0
          (from_pkcs12-IsHeld L D target buf pass p h)

    -- Of a process that starts without a shared key chain and without temporary directories: after
    -- any calls that make identities, which may fail or panic, the only one that exists is that of
    -- the shared key chain, if there is one. The end of the process removes it, unless a panic
    -- poisoned the mutex.
    pub make_all-dirs :
        (target : Target) (calls : List Call) (p : Process L)
        → p.temp_keychain ≡ none
        → D.dirs p.system ≡ []
        → (D.dirs (make_all target calls p).system
            ≡ held L D (make_all target calls p).temp_keychain)
          × (((make_all target calls p).poisoned ≡ true)
              ⊎ (D.dirs (at_exit L (make_all target calls p)).system ≡ []))
    make_all-dirs target calls p n e =
        let h = make_all-IsHeld target calls p (record {
          dirs_held = e ∙ ap (held L D) (sym n);
          registers = Registers-same L D n refl tt;
        }) in
        (h.dirs_held, at_exit-dirs L D _ h)
