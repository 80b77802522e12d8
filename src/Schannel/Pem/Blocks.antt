-- ===== src/Schannel/Pem/Blocks.antt =====
-- The iterator of module `pem` of src/imp/schannel.rs yields the blocks of the description `cut`.
pub mod Text
use rust_native_tls.Prelude.{
  All, ◌++◌, ℕ, zero, suc, ◌+◌, ◌-◌, ◌<◌, ◌≤◌, ◌≡◌, refl, ap, sym, ◌∙◌, true, none, some, List, [],
  ◌∷◌, arith, length, take, drop, Option-cases, inl, inr, List-cases, ◌⊎◌, length-drop, drop-drop,
  take-length, drop-length, is_utf8, slice, slice_from, ok, begins_char,
}
use rust_native_tls.Schannel.Pem.{at_guard, find_guard, next_end, PemBlock, new, next, collect}
use rust_native_tls.Schannel.Pem.Split.{
  concat, IsBlock, cut-concat, find_guard-cut, cut-IsBlock, cut, cut_opened, cut_of_none,
  cut_of_some,
}

at_guard-begins_char :
    (s : List ℕ) → at_guard s ≡ true → (begins_char s ≡ true) × (begins_char (drop 1 s) ≡ true)
unfolding at_guard
at_guard-begins_char [] h = cc
at_guard-begins_char (x ∷ []) h = ground arith
at_guard-begins_char (x ∷ y ∷ r) h = ground arith

drop_lt :
    (i : ℕ) (s : List ℕ) {x : ℕ} {xs : List ℕ} → drop i s ≡ x ∷ xs → length s ≡ i + suc (length xs)
drop_lt i s h = omega (arith, length-drop i s, ap length h)

drop_suc : (i : ℕ) (s : List ℕ) {x : ℕ} {xs : List ℕ} → drop i s ≡ x ∷ xs → drop (i + 1) s ≡ xs
drop_suc i s h = sym (drop-drop 1 i s) ∙ ap (drop 1) h

-- The iterator over `s` at an offset.
abbrev at : List ℕ → ℕ → PemBlock
at s i = record { pem_block = s; cur_end = i }

-- The offset is the end of the text or that of a guard.
abbrev IsLive : List ℕ → ℕ → Type 0
IsLive s i = (i ≡ length s) ⊎ (at_guard (drop i s) ≡ true)

-- A place where `str` may be cut.
abbrev IsBoundary : List ℕ → ℕ → Type 0
IsBoundary s i = (i ≡ length s) ⊎ (begins_char (drop i s) ≡ true)

IsLive-IsBoundary : (s : List ℕ) (i : ℕ) → IsLive s i → IsBoundary s i
IsLive-IsBoundary s i h = ground (arith, at_guard-begins_char (drop i s))

module _ (E : Type 0) (s : List ℕ) where
  slice_from-ok : (i : ℕ) → IsBoundary s i → slice_from {E = E} s i ≡ ok (drop i s)
  unfolding slice_from
  slice_from-ok i h = ground arith

  slice-ok :
      (i j : ℕ)
      → i ≤ j
      → IsBoundary s i
      → IsBoundary s j
      → slice {E = E} s i j ≡ ok (take (j - i) (drop i s))
  unfolding slice
  slice-ok i j le h k = ground arith

  module _ (i x : ℕ) (xs : List ℕ) (d : drop i s ≡ x ∷ xs) (g : at_guard (x ∷ xs) ≡ true) where
    next_to :
        (j : ℕ)
        → next_end (find_guard xs) i (length s) ≡ j
        → i ≤ j
        → IsLive s j
        → next {E = E} (at s i) ≡ ok (some (take (j - i) (x ∷ xs)), at s j)
    unfolding next
    next_to j e le v = ground (
      arith,
      drop_lt i s d,
      drop_suc i s d,
      at_guard-begins_char (x ∷ xs) g,
      slice_from-ok (i + 1),
      slice-ok i j le (inr (ap begins_char d ∙ (at_guard-begins_char (x ∷ xs) g).0))
          (IsLive-IsBoundary s j v),
    )

    -- What one call yields, and where it leaves the iterator.
    abbrev StepTo : ℕ → Type 0
    StepTo j =
        (next {E = E} (at s i) ≡ ok (some (x ∷ (cut xs).0), at s j))
        × (i < j)
        × IsLive s j
        × ((cut (drop j s)).1 ≡ (cut xs).1)

    next_last : find_guard xs ≡ none → StepTo (length s)
    unfolding cut
    next_last f =
        let ends : length s - i ≡ suc (length xs) = omega (arith, drop_lt i s d) in
        (
          next_to (length s) (rw f) (omega (arith, drop_lt i s d)) (inl refl)
              ∙ rw (ends, cut_of_none xs f, take-length xs),
          omega (arith, drop_lt i s d),
          inl refl,
          rw (drop-length s, cut_of_none xs f),
        )

    next_before : (k : ℕ) → find_guard xs ≡ some k → StepTo (k + i + 1)
    next_before k f =
        let (split, guard, within) = cut_of_some xs k f in
        let width : k + i + 1 - i ≡ suc k = omega arith in
        let rest : drop (k + i + 1) s ≡ drop k xs =
          ap (λ (n : ℕ). drop n s) (omega arith)
          ∙ sym (drop-drop k (i + 1) s)
          ∙ ap (drop k) (drop_suc i s d) in
        (
          next_to (k + i + 1) (rw f) (omega arith) (inr (rw rest guard)) ∙ rw (width, split),
          omega arith,
          inr (rw rest guard),
          rw (rest, split),
        )

    next_step : (j : ℕ) × StepTo j
    next_step = elim (Option-cases (find_guard xs)) [
      | inl f ↦ (length s, next_last f)
      | inr (k, f) ↦ (k + i + 1, next_before k f)
    ]

  next_end_of_text : (i : ℕ) → drop i s ≡ [] → next {E = E} (at s i) ≡ ok (none, at s i)
  unfolding next
  next_end_of_text i d = ground (arith, length-drop i s, ap length d)

-- From any live offset the iterator yields the blocks of what is left.
collect_from :
    {E : Type 0} (fuel : ℕ) (s : List ℕ) (i : ℕ)
    → length s - i < fuel
    → IsLive s i
    → collect {E = E} fuel (at s i) ≡ some (ok (cut (drop i s)).1)
unfolding collect cut
collect_from zero s i h v = elim h [ ]
collect_from {E} (suc fuel) s i h v = elim (List-cases (drop i s)) [
  | inl d ↦ rw (next_end_of_text E s i d, collect, d)
  | inr (x, xs, d) ↦
      let g : at_guard (x ∷ xs) ≡ true = ground (arith, length-drop i s, ap length d, v) in
      let (j, step) = next_step E s i x xs d g in
      let (yields, further, live, rest) = step in
      rw (
        yields,
        collect,
        d,
        cut_opened x xs g,
        collect_from {E = E} fuel s j (omega (arith, drop_lt i s d)) live,
        rest,
      )
]

-- The iterator yields the blocks of `cut`.
pub collect-new :
    {E : Type 0} (s : List ℕ)
    → is_utf8 s ≡ true
    → (it : PemBlock) × (new {E = E} s ≡ ok it)
      × (collect {E = E} (suc (length s)) it ≡ some (ok (cut s).1))
unfolding new cut
collect-new s u = elim (Option-cases (find_guard s)) [
  | inl f ↦ (
    at s (length s),
    rw (u, f),
    collect_from (suc (length s)) s (length s) (omega arith) (inl refl)
        ∙ rw (drop-length s, cut_of_none s f, cut),
  )
  | inr (k, f) ↦
      let (split, guard, within) = cut_of_some s k f in
      (at s k, rw (u, f), collect_from (suc (length s)) s k (omega arith) (inr guard) ∙ rw split)
]

-- Of a valid UTF-8 text the iterator, called once more than there are bytes, comes to its end
-- without a panic. Its blocks, in order and after what precedes the first guard, make up the text;
-- each begins with `-----BEGIN` and holds no other, and none stands before the first.
pub collect_blocks :
    {E : Type 0} (s : List ℕ)
    → is_utf8 s ≡ true
    → (it : PemBlock) × (blocks : List (List ℕ)) × (before : List ℕ) × (new {E = E} s ≡ ok it)
      × (collect {E = E} (suc (length s)) it ≡ some (ok blocks))
      × (before ++ concat blocks ≡ s)
      × (find_guard before ≡ none)
      × All IsBlock blocks
collect_blocks s u =
    let (it, made, yields) = collect-new s u in
    (it, (cut s).1, (cut s).0, made, yields, cut-concat s, find_guard-cut s, cut-IsBlock s)
