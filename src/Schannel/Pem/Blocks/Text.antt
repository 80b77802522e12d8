-- ===== src/Schannel/Pem/Blocks/Text.antt =====
-- The blocks of `PemBlock` of src/imp/schannel.rs are text, as the `&str`s that they are slices of.
use rust_native_tls.Prelude.{
  ℕ, suc, ◌≡◌, refl, sym, subst, true, some, List, [], ◌∷◌, ◌++◌, ◌⊎◌, inl, inr, All, length,
  is_utf8, is_utf8-append, begins_char, ok,
}
use rust_native_tls.Schannel.Pem.{PemBlock, new, collect, at_guard}
use rust_native_tls.Schannel.Pem.Split.{concat, IsBlock}
use rust_native_tls.Schannel.Pem.Blocks.{at_guard-begins_char, collect_blocks}

-- The bytes are those of a `str`.
abbrev pub IsText : List ℕ → Type 0
IsText bytes = is_utf8 bytes ≡ true

no_empty : at_guard [] ≡ true → ⊥
unfolding at_guard
no_empty h = cc

concat-begins :
    (blocks : List (List ℕ))
    → All IsBlock blocks
    → (concat blocks ≡ []) ⊎ (begins_char (concat blocks) ≡ true)
unfolding concat
concat-begins [] h = inl refl
concat-begins ([] ∷ blocks) (h, hs) = absurd (no_empty h.opens)
concat-begins ((x ∷ b) ∷ blocks) (h, hs) = inr ((at_guard-begins_char (x ∷ b) h.opens).0)

concat-IsText :
    (blocks : List (List ℕ)) → All IsBlock blocks → IsText (concat blocks) → All IsText blocks
unfolding concat
concat-IsText [] h u = tt
concat-IsText (b ∷ blocks) (h, hs) u =
    let (first, rest) = is_utf8-append b (concat blocks) (concat-begins blocks hs) u in
    (first, concat-IsText blocks hs rest)

-- Every block that the iterator yields, until it ends without a panic, is valid UTF-8, and so is
-- what precedes the first: each slice is cut where a character begins.
pub collect-IsText :
    {E : Type 0} (s : List ℕ)
    → IsText s
    → (it : PemBlock) × (blocks : List (List ℕ)) × (before : List ℕ) × (new {E = E} s ≡ ok it)
      × (collect {E = E} (suc (length s)) it ≡ some (ok blocks))
      × (before ++ concat blocks ≡ s)
      × IsText before
      × All IsText blocks
collect-IsText s u =
    let (it, blocks, before, made, yields, whole, none_before, each) = collect_blocks s u in
    let (first, rest) =
      is_utf8-append before (concat blocks) (concat-begins blocks each)
        (subst IsText (sym whole) u) in
    (it, blocks, before, made, yields, whole, first, concat-IsText blocks each rest)
