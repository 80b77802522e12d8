-- ===== src/SecurityFramework/Identity/Chain.antt =====
-- What `Identity::from_pkcs8` of src/imp/security_framework.rs makes of the items that it imports.
use rust_native_tls.Prelude.{
  ℕ, ◌≡◌, refl, ap, ◌∙◌, sym, true, Option, none, some, List, [], ◌∷◌, starts_with, codes, Result,
  ok, ok_or, Bool-cases, inl, inr, ok-injective,
}
use rust_native_tls.Prelude.State.{continue-eq-ok}
use rust_native_tls.SecurityFramework.Library.{Library}
use rust_native_tls.SecurityFramework.Process.{macos, Process, Items, in_system, or_io, with_dir}
use rust_native_tls.SecurityFramework.Identity.{
  Identity, pkcs8_guard, hex_bytes, identity_of_items, import_pair, random_password, no_items,
  options, from_pkcs8,
}

ok_or-eq-ok : {E A : Type 0} (o : Option A) (e : E) {a : A} → ok_or o e ≡ ok a → o ≡ some a
ok_or-eq-ok none e h = cc
ok_or-eq-ok (some a) e h = cc

module _ (L : Library) where
  -- `all` is what the import of the key and then of the certificates leaves, into a new key chain in
  -- `dir` with a random password, from the system `s` to the system `s'`.
  abbrev pub AreImported :
      List ℕ → List ℕ → L.TempDir → L.SecKeychain → L.System → L.System → Items L → Type 0
  AreImported pem key dir keychain s s' all =
      (bytes : List ℕ) × (password : List ℕ) × (items : Items L) × (s₁ : L.System) × (s₂ : L.System)
      × (s₃ : L.System) × (L.copy_bytes 10 s ≡ (s₁, some bytes))
      × (password ≡ hex_bytes bytes)
      × (L.keychain_create password dir (codes "identity.keychain") s₁ ≡ (s₂, ok keychain))
      × (L.import_items (options L "key.pem" keychain) (no_items L) key s₂ ≡ (s₃, ok items))
      × (L.import_items (options L "chain.pem" keychain) items pem s₃ ≡ (s', ok all))

  -- The identity is that of the first certificate among these items, made with their key chain, and
  -- its chain is all their certificates.
  abbrev pub IsPaired : List ℕ → List ℕ → L.TempDir → L.System → L.System → Identity L → Type 0
  IsPaired pem key dir s s' i =
      (keychain : L.SecKeychain) × (all : Items L) × (leaf : L.SecCertificate) × (rest : List
        L.SecCertificate)
      × AreImported pem key dir keychain s s' all
      × (all.certificates ≡ leaf ∷ rest)
      × (i.chain ≡ leaf ∷ rest)
      × (L.with_certificate keychain leaf s' ≡ ok i.identity)

  in_system-eq-ok :
      {A : Type 0} (f : L.System → L.System × Result L.BaseError A) (p : Process L) {q : Process L}
      {a : A}
      → in_system L f p ≡ (q, ok a)
      → f p.system ≡ (q.system, ok a)
  in_system-eq-ok {A} f p {q} {a} h =
      ap (λ (x : Process L × Result L.BaseError A). (x.0.system, x.1)) h

  or_io-eq-ok :
      {A : Type 0} (f : L.System → L.System × Option A) (p : Process L) {q : Process L} {a : A}
      → or_io L f p ≡ (q, ok a)
      → f p.system ≡ (q.system, some a)
  or_io-eq-ok {A} f p {q} {a} h =
      let (s, r) = f p.system in
      ap (λ (x : Process L × Result L.BaseError A). (x.0.system, r)) h
      ∙ ap (λ x. (q.system, x))
          (ok_or-eq-ok r (L.from_code L.err_sec_io)
            (ap (λ (x : Process L × Result L.BaseError A). x.1) h))

  -- The identity that the items give, and the system as it was.
  identity_of_items-eq-ok :
      (k : L.SecKeychain) (certs : List L.SecCertificate) (p : Process L) {q : Process L}
      {i : Identity L}
      → identity_of_items L k certs p ≡ (q, ok i)
      → (leaf : L.SecCertificate) × (rest : List L.SecCertificate) × (p.system ≡ q.system)
        × (certs ≡ leaf ∷ rest)
        × (i.chain ≡ leaf ∷ rest)
        × (L.with_certificate k leaf q.system ≡ ok i.identity)
  unfolding identity_of_items
  identity_of_items-eq-ok k [] p h = cc
  identity_of_items-eq-ok k (leaf ∷ rest) p {q} {i} h =
      let (r, ident, made, last) = continue-eq-ok (p, L.with_certificate k leaf p.system) _ h in
      let same : record { identity = ident; chain = leaf ∷ rest } ≡ i =
        ok-injective (ap (λ (x : Process L × Result L.BaseError (Identity L)). x.1) last) in
      let kept : p ≡ q =
        ap (λ (x : Process L × Result L.BaseError L.SecIdentity). x.0) made
        ∙ ap (λ (x : Process L × Result L.BaseError (Identity L)). x.0) last in
      (
        leaf,
        rest,
        ap (λ (x : Process L). x.system) kept,
        refl,
        ap (λ (x : Identity L). x.chain) (sym same),
        ap (λ (x : Process L). L.with_certificate k leaf x.system) (sym kept)
            ∙ ap (λ (x : Process L × Result L.BaseError L.SecIdentity). x.1) made
            ∙ ap (λ (x : Identity L). ok x.identity) same,
      )

  random_password-eq-ok :
      (p : Process L) {q : Process L} {password : List ℕ}
      → random_password L p ≡ (q, ok password)
      → (bytes : List ℕ) × (L.copy_bytes 10 p.system ≡ (q.system, some bytes))
        × (password ≡ hex_bytes bytes)
  unfolding random_password
  random_password-eq-ok p {q} {password} h =
      let (r, bytes, copied, last) = continue-eq-ok (or_io L (L.copy_bytes 10) p) _ h in
      let kept : r ≡ q = ap (λ (x : Process L × Result L.BaseError (List ℕ)). x.0) last in
      let same = ap (λ (x : Process L × Result L.BaseError (List ℕ)). x.1) last in
      (
        bytes,
        or_io-eq-ok (L.copy_bytes 10) p copied
            ∙ ap (λ (x : Process L). (x.system, some bytes)) kept,
        sym (ok-injective same),
      )

  import_pair-IsPaired :
      (pem key : List ℕ) (dir : L.TempDir) (p : Process L) {q : Process L} {i : Identity L}
      → import_pair L pem key dir p ≡ (q, ok i)
      → IsPaired pem key dir p.system q.system i
  unfolding import_pair
  import_pair-IsPaired pem key dir p {q} {i} h =
      let (p₁, password, drawn, h₁) = continue-eq-ok (random_password L p) _ h in
      let create = L.keychain_create password dir (codes "identity.keychain") in
      let (p₂, k, created, h₂) = continue-eq-ok (in_system L create p₁) _ h₁ in
      let import_key = L.import_items (options L "key.pem" k) (no_items L) key in
      let (p₃, items, keyed, h₃) = continue-eq-ok (in_system L import_key p₂) _ h₂ in
      let import_chain = L.import_items (options L "chain.pem" k) items pem in
      let (p₄, all, certified, h₄) = continue-eq-ok (in_system L import_chain p₃) _ h₃ in
      let (bytes, copied, hexed) = random_password-eq-ok p drawn in
      let (leaf, rest, kept, split, chain, made) =
        identity_of_items-eq-ok k all.certificates p₄ h₄ in
      (
        k,
        all,
        leaf,
        rest,
        (
          bytes,
          password,
          items,
          p₁.system,
          p₂.system,
          p₃.system,
          copied,
          hexed,
          in_system-eq-ok create p₁ created,
          in_system-eq-ok import_key p₂ keyed,
          in_system-eq-ok import_chain p₃ certified ∙ ap (λ s. (s, ok all)) kept,
        ),
        split,
        chain,
        made,
      )

  -- The directory is made before, and removed after.
  abbrev pub HasLeaf : List ℕ → List ℕ → L.System → L.System → Identity L → Type 0
  HasLeaf pem key s s' i =
      (dir : L.TempDir) × (opened : L.System) × (closed : L.System) × (L.temp_dir_new s
        ≡ (opened, some dir))
      × IsPaired pem key dir opened closed i
      × (s' ≡ L.remove_dir dir closed)

  with_dir-HasLeaf :
      (pem key : List ℕ) (p : Process L) {p' : Process L} {i : Identity L}
      → with_dir L (import_pair L pem key) p ≡ (p', ok i)
      → HasLeaf pem key p.system p'.system i
  with_dir-HasLeaf pem key p {p'} {i} h =
      let (q, dir, opened, rest) = continue-eq-ok (or_io L L.temp_dir_new p) _ h in
      let (q', r) = import_pair L pem key dir q in
      let made : r ≡ ok i = ap (λ (x : Process L × Result L.BaseError (Identity L)). x.1) rest in
      (
        dir,
        q.system,
        q'.system,
        or_io-eq-ok L.temp_dir_new p opened,
        import_pair-IsPaired pem key dir q (ap (λ x. (q', x)) made),
        sym (ap (λ (x : Process L × Result L.BaseError (Identity L)). x.0.system) rest),
      )

  -- Where `from_pkcs8` makes an identity, the key has the PKCS#8 header, and into a new key chain
  -- with a random password, in a temporary directory that is removed at the end, first the key and
  -- then the certificates were imported. The identity is the one that this key chain gives for the
  -- first certificate imported, and its chain is all the certificates imported, that one included.
  pub from_pkcs8-HasLeaf :
      (pem key : List ℕ) (p : Process L) {p' : Process L} {i : Identity L}
      → from_pkcs8 L macos pem key p ≡ (p', ok i)
      → (starts_with key pkcs8_guard ≡ true) × HasLeaf pem key p.system p'.system i
  unfolding from_pkcs8
  from_pkcs8-HasLeaf pem key p h = elim (Bool-cases (starts_with key pkcs8_guard)) [
    | inl e ↦ (e, with_dir-HasLeaf pem key p (rw e at h))
    | inr e ↦ cc (rw e at h)
  ]
