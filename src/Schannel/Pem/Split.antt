-- ===== src/Schannel/Pem/Split.antt =====
-- An independent description of the split that src/imp/schannel.rs makes with `PemBlock`: one
-- pass over the bytes from the right that opens a block at each guard.
use rust_native_tls.Prelude.{
  ◌++◌, All, Bool-cases, inl, inr, ap, starts_with, ℕ, zero, suc, ◌<◌, ◌≡◌, refl, refl, true, false,
  Bool, none, some, List, [], ◌∷◌, arith, length, take, drop,
}
use rust_native_tls.Schannel.Pem.{begin_guard, at_guard, find_guard}

-- The bytes before the first guard, and the blocks.
abbrev pub Cut : Type 0
Cut = List ℕ × List (List ℕ)

abbrev pub open_block : Bool → ℕ → Cut → Cut
open_block true x (before, blocks) = ([], (x ∷ before) ∷ blocks)
open_block false x (before, blocks) = (x ∷ before, blocks)

unfoldable pub cut : List ℕ → Cut
cut [] = ([], [])
cut (x ∷ xs) = open_block (at_guard (x ∷ xs)) x (cut xs)

pub cut_opened :
    (x : ℕ) (xs : List ℕ)
    → at_guard (x ∷ xs) ≡ true
    → cut (x ∷ xs) ≡ ([], (x ∷ (cut xs).0) ∷ (cut xs).1)
unfolding cut
cut_opened x xs h = rw h

-- With no guard there is no block.
pub cut_of_none : (xs : List ℕ) → find_guard xs ≡ none → cut xs ≡ (xs, [])
unfolding cut find_guard
cut_of_none [] h = refl
cut_of_none (x ∷ xs) h = ground (arith, cut_of_none xs)

-- The first guard is where `find_guard` says.
pub cut_of_some :
    (xs : List ℕ) (k : ℕ)
    → find_guard xs ≡ some k
    → (cut xs ≡ (take k xs, (cut (drop k xs)).1)) × (at_guard (drop k xs) ≡ true) × (k < length xs)
unfolding cut find_guard
cut_of_some [] k h = cc
cut_of_some (x ∷ xs) zero h = ground (arith)
cut_of_some (x ∷ xs) (suc k) h = ground (arith, cut_of_some xs k)

unfoldable pub concat : List (List ℕ) → List ℕ
concat [] = []
concat (b ∷ bs) = b ++ concat bs

-- The pieces, put together again, are the text.
pub cut-concat : (s : List ℕ) → (cut s).0 ++ concat (cut s).1 ≡ s
unfolding cut concat
cut-concat [] = refl
cut-concat (x ∷ xs) = ground (arith, cut-concat xs)

starts_with-append : (s t p : List ℕ) → starts_with s p ≡ true → starts_with (s ++ t) p ≡ true
starts_with-append s t [] h = refl
starts_with-append [] t (c ∷ p) h = cc
starts_with-append (x ∷ s) t (c ∷ p) h = ground (arith, starts_with-append s t p)

starts_with-split : (s p : List ℕ) → starts_with s p ≡ true → s ≡ p ++ drop (length p) s
starts_with-split s [] h = refl
starts_with-split [] (c ∷ p) h = cc
starts_with-split (x ∷ s) (c ∷ p) h = ground (arith, starts_with-split s p)

-- The cut text begins with a guard where the whole does, and only there.
at_guard-cut_of_false :
    (x : ℕ) (xs : List ℕ) → at_guard (x ∷ xs) ≡ false → at_guard (x ∷ (cut xs).0) ≡ false
unfolding at_guard
at_guard-cut_of_false x xs h = elim (Bool-cases (starts_with (x ∷ (cut xs).0) begin_guard)) [
  | inl e ↦ cc (
    starts_with-append (x ∷ (cut xs).0) (concat (cut xs).1) begin_guard e,
    ap (λ (t : List ℕ). starts_with (x ∷ t) begin_guard) (cut-concat xs),
  )
  | inr e ↦ e
]

-- No guard begins inside a guard.
cut-begin_guard : (r : List ℕ) → (cut (drop 1 begin_guard ++ r)).0 ≡ drop 1 begin_guard ++ (cut r).0
unfolding cut at_guard
cut-begin_guard r = refl

at_guard-cut_of_true :
    (x : ℕ) (xs : List ℕ) → at_guard (x ∷ xs) ≡ true → at_guard (x ∷ (cut xs).0) ≡ true
unfolding at_guard
at_guard-cut_of_true x xs h =
    let rest = drop (length begin_guard) (x ∷ xs) in
    let split : (x ∷ xs) ≡ begin_guard ++ rest = starts_with-split (x ∷ xs) begin_guard h in
    let head : x ≡ b'-' = cc split in
    let tail : xs ≡ drop 1 begin_guard ++ rest = cc split in rw (tail, head, cut-begin_guard rest)

-- What precedes the first guard holds none.
pub find_guard-cut : (s : List ℕ) → find_guard (cut s).0 ≡ none
unfolding cut find_guard
find_guard-cut [] = refl
find_guard-cut (x ∷ xs) = ground (arith, find_guard-cut xs, at_guard-cut_of_false x xs)

-- A block: it begins with a guard and holds no other.
pub record IsBlock (b : List ℕ) : Type 0 where
  pub opens : at_guard b ≡ true
  pub single : find_guard (drop 1 b) ≡ none

pub cut-IsBlock : (s : List ℕ) → All IsBlock (cut s).1
unfolding cut
cut-IsBlock [] = tt
cut-IsBlock (x ∷ xs) = elim (Bool-cases (at_guard (x ∷ xs))) [
  | inl e ↦
      rw e
        (record { opens = at_guard-cut_of_true x xs e; single = find_guard-cut xs }, cut-IsBlock xs)
  | inr e ↦ rw e (cut-IsBlock xs)
]
