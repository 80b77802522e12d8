-- ===== src/Schannel/Identity/Containers.antt =====
-- The names of `gen_container_name` of src/imp/schannel.rs.
use rust_native_tls.Prelude.{
  ℕ, zero, suc, ◌+◌, ◌%◌, ◌<◌, ◌≡◌, ◌≢◌, ◌∙◌, ap, sym, codes, ok-injective, decimal-injective,
  arith,
}
use mathlib.Core.List.{append_cancel_left}
use rust_native_tls.Schannel.Library.{Library, Width, bits_32, bits_64}
use rust_native_tls.Schannel.Identity.{Process, usize_mod, gen_container_name}

-- A counter that wraps around.
wrapped_suc :
    (w : Width) (c n : ℕ) → ((c + n) % usize_mod w + 1) % usize_mod w ≡ (c + suc n) % usize_mod w
wrapped_suc bits_32 c n = omega arith
wrapped_suc bits_64 c n = omega arith

wrapped_zero : (w : Width) (c : ℕ) → c < usize_mod w → c ≡ (c + 0) % usize_mod w
wrapped_zero bits_32 c h = omega arith
wrapped_zero bits_64 c h = omega arith

wrapped_unique :
    (w : Width) (c m n : ℕ)
    → m < n
    → n < m + usize_mod w
    → (c + m) % usize_mod w ≡ (c + n) % usize_mod w
    → ⊥
wrapped_unique bits_32 c m n lt near same = omega arith
wrapped_unique bits_64 c m n lt near same = omega arith

module _ (L : Library) where
  -- The process after so many calls.
  pub after : ℕ → Process L → Process L
  after zero p = p
  after (suc n) p = (gen_container_name L (after n p)).0

  counter-after :
      (n : ℕ) (p : Process L)
      → p.counter < usize_mod L.width
      → (after n p).counter ≡ (p.counter + n) % usize_mod L.width
  unfolding after gen_container_name
  counter-after zero p h = wrapped_zero L.width p.counter h
  counter-after (suc n) p h =
      ap (λ c. (c + 1) % usize_mod L.width) (counter-after n p h) ∙ wrapped_suc L.width p.counter n

  -- Two calls give different names, unless there are as many calls between them as a
  -- `usize` has values, or more.
  pub gen_container_name_unique :
      (p : Process L) (m n : ℕ)
      → p.counter < usize_mod L.width
      → m < n
      → n < m + usize_mod L.width
      → (gen_container_name L (after m p)).1 ≢ (gen_container_name L (after n p)).1
  unfolding gen_container_name
  gen_container_name_unique p m n h lt near e =
      let same =
        decimal-injective (after m p).counter (after n p).counter
          (append_cancel_left (codes "native-tls-") _ _ (ok-injective e)) in
      wrapped_unique L.width p.counter m n lt near
        (sym (counter-after m p h) ∙ same ∙ counter-after n p h)
