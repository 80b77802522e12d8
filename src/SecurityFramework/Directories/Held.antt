-- ===== src/SecurityFramework/Directories/Held.antt =====
-- The directory of the key chain that all calls of `from_pkcs12` in
-- src/imp/security_framework.rs share.
use rust_native_tls.Prelude.{
  ℕ, ◌≡◌, refl, ap, sym, ◌∙◌, Bool, true, false, Option, none, some, List, [], ◌∷◌, codes, Result,
  ok, err, panic, if◌then◌else◌,
}
use rust_native_tls.Prelude.State.{continue, lift}
use rust_native_tls.SecurityFramework.Library.{Library}
use rust_native_tls.SecurityFramework.Process.{Target, macos, ios, Process, Code, in_system}
use rust_native_tls.SecurityFramework.Identity.{Identity}
use rust_native_tls.SecurityFramework.Pkcs12.{
  Import, make_keychain, kept, keychain_of, unlocked, shared_keychain, import_options, with_chain,
  identity_of, from_last, pop, from_pkcs12,
}
use rust_native_tls.SecurityFramework.Directories.{
  DirLaws, Same, Same-refl, Keeps, >>=-Keeps, in_system-Keeps,
}

module _ (L : Library) (D : DirLaws L) where
  abbrev pub Slot : Type 0
  Slot = Option (L.SecKeychain × L.TempDir)

  -- The directory that goes with the shared key chain.
  abbrev pub held : Slot → List L.TempDir
  held none = []
  held (some (keychain, dir)) = dir ∷ []

  -- Where there is a shared key chain, the handler that drops it is registered.
  abbrev pub Registers : Slot → Bool → Type 0
  Registers none b = Unit
  Registers (some k) b = b ≡ true

  pub record IsHeld (p : Process L) : Type 0 where
    pub dirs_held : D.dirs p.system ≡ held p.temp_keychain
    pub registers : Registers p.temp_keychain p.set_at_exit

  pub Registers-same :
      {k k' : Slot} {b b' : Bool} → k' ≡ k → b' ≡ b → Registers k b → Registers k' b'
  Registers-same e f h = rw (e, f) h

  pub Same-IsHeld : {p q : Process L} → Same L D p q → IsHeld p → IsHeld q
  Same-IsHeld s h = record {
    dirs_held = s.dirs_same ∙ h.dirs_held ∙ ap held (sym s.keychain_same);
    registers = Registers-same s.keychain_same s.at_exit_same h.registers;
  }

  -- A first part that leaves the process so, and a second that keeps what it finds.
  continue-IsHeld :
      {A B : Type 0} (r : Process L × Result L.BaseError A) (f : A → Code L B)
      → IsHeld r.0
      → ((a : A) → Keeps L D (f a))
      → IsHeld (continue r f).0
  continue-IsHeld (p, ok a) f h k = Same-IsHeld (k a p) h
  continue-IsHeld (p, err e) f h k = h
  continue-IsHeld (p, panic) f h k = h

  make_keychain-Keeps : (pass : List ℕ) (d : L.TempDir) → Keeps L D (make_keychain L pass d)
  unfolding make_keychain
  make_keychain-Keeps pass d =
      let create = L.keychain_create pass d (codes "tmp.keychain") in
      >>=-Keeps L D {B = L.SecKeychain} (in_system L create) _
        (in_system-Keeps L D create (D.keychain_create_lem pass d _))
        λ keychain.
          >>=-Keeps L D {B = L.SecKeychain} (in_system L (L.set_settings keychain)) _
            (in_system-Keeps L D (L.set_settings keychain) (D.set_settings_lem keychain))
            λ done. Same-refl L D

  -- A directory that has just been made is held with its key chain, or dropped.
  kept-IsHeld :
      (d : L.TempDir) (r : Process L × Result L.BaseError L.SecKeychain)
      → D.dirs r.0.system ≡ d ∷ []
      → r.0.temp_keychain ≡ none
      → r.0.set_at_exit ≡ true
      → IsHeld (kept L d r).0
  unfolding kept
  kept-IsHeld d (p, ok keychain) h n x = record { dirs_held = h; registers = x }
  kept-IsHeld d (p, err e) h n x = record {
    dirs_held = D.remove_dir_lem d p.system h ∙ ap held (sym n);
    registers = Registers-same n refl tt;
  }
  kept-IsHeld d (p, panic) h n x = record {
    dirs_held = D.remove_dir_lem d p.system h ∙ ap held (sym n);
    registers = Registers-same n refl tt;
  }

  new_keychain-IsHeld :
      (pass : List ℕ) (p : Process L) (r : L.System × Option L.TempDir)
      → L.temp_dir_new p.system ≡ r
      → p.temp_keychain ≡ none
      → p.set_at_exit ≡ true
      → IsHeld p
      → IsHeld (keychain_of L pass none p).0
  unfolding keychain_of
  new_keychain-IsHeld pass p (s, none) e n x h =
      rw e (record {
        dirs_held = D.temp_dir_new_none p.system e ∙ h.dirs_held;
        registers = h.registers;
      })
  new_keychain-IsHeld pass p (s, some d) e n x h =
      let made = make_keychain-Keeps pass d (record p { system = s }) in
      rw e (
        kept-IsHeld d _
          (made.dirs_same
            ∙ D.temp_dir_new_some p.system e
            ∙ ap (λ ds. d ∷ ds) (h.dirs_held ∙ ap held n))
          (made.keychain_same ∙ n) (made.at_exit_same ∙ x))

  keychain_of-IsHeld :
      (pass : List ℕ) (k : Slot) (p : Process L)
      → p.temp_keychain ≡ k
      → p.set_at_exit ≡ true
      → IsHeld p
      → IsHeld (keychain_of L pass k p).0
  unfolding keychain_of
  keychain_of-IsHeld pass none p n x h = new_keychain-IsHeld pass p _ refl n x h
  keychain_of-IsHeld pass (some (keychain, dir)) p n x h = h

  unlocked-IsHeld :
      {A : Type 0} (r : Process L × Result L.BaseError A) → IsHeld r.0 → IsHeld (unlocked L r).0
  unfolding unlocked
  unlocked-IsHeld (p, ok a) h = h
  unlocked-IsHeld (p, err e) h = h
  unlocked-IsHeld (p, panic) h = record { dirs_held = h.dirs_held; registers = h.registers }

  if-IsHeld :
      {A : Type 0} (b : Bool) (x y : Process L × Result L.BaseError A)
      → IsHeld x.0
      → IsHeld y.0
      → IsHeld (if b then x else y).0
  if-IsHeld true x y h k = h
  if-IsHeld false x y h k = k

  shared_keychain-IsHeld :
      (pass : List ℕ) (p : Process L)
      → p.set_at_exit ≡ true
      → IsHeld p
      → IsHeld (shared_keychain L pass p).0
  unfolding shared_keychain
  shared_keychain-IsHeld pass p x h =
      if-IsHeld p.poisoned (p, panic) _ h
        (unlocked-IsHeld _ (keychain_of-IsHeld pass p.temp_keychain p refl x h))

  Registers-true : (k : Slot) → Registers k true
  Registers-true none = tt
  Registers-true (some k) = refl

  import_options-IsHeld :
      (target : Target) (buf pass : List ℕ) (p : Process L)
      → IsHeld p
      → IsHeld (import_options L target buf pass p).0
  unfolding import_options
  import_options-IsHeld ios buf pass p h =
      Same-IsHeld
        (in_system-Keeps L D (L.pkcs12_import none pass buf) (D.pkcs12_import_lem none pass buf) p)
        h
  import_options-IsHeld macos buf pass p h =
      let p' : Process L = record p { set_at_exit = true } in
      let registered : IsHeld p' = record {
        dirs_held = h.dirs_held;
        registers = Registers-true p.temp_keychain;
      } in
      continue-IsHeld (shared_keychain L pass p') _ (shared_keychain-IsHeld pass p' refl registered)
        λ k.
          in_system-Keeps L D (L.pkcs12_import (some k) pass buf)
            (D.pkcs12_import_lem (some k) pass buf)

  with_chain-Keeps :
      (i : L.SecIdentity) (chain : Option (List L.SecCertificate))
      → Keeps L D (with_chain L i chain)
  unfolding with_chain
  with_chain-Keeps i chain =
      >>=-Keeps L D {B = Identity L} (lift (L.identity_certificate i)) _ (Same-refl L D)
        λ cert. Same-refl L D

  from_last-Keeps : (import : Option (Import L)) → Keeps L D (from_last L import)
  unfolding from_last
  from_last-Keeps none = Same-refl L D
  from_last-Keeps (some import) = from_identity import.identity import.cert_chain
    where
      from_identity :
          (i : Option L.SecIdentity) (chain : Option (List L.SecCertificate))
          → Keeps L D (identity_of L i chain)
      from_identity none chain = Same-refl L D
      from_identity (some i) chain = with_chain-Keeps i chain

  pub from_pkcs12-IsHeld :
      (target : Target) (buf pass : List ℕ) (p : Process L)
      → IsHeld p
      → IsHeld (from_pkcs12 L target buf pass p).0
  unfolding from_pkcs12
  from_pkcs12-IsHeld target buf pass p h =
      continue-IsHeld (import_options L target buf pass p) _
        (import_options-IsHeld target buf pass p h) λ imports. from_last-Keeps (pop imports)
