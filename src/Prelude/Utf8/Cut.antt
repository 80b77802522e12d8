-- ===== src/Prelude/Utf8/Cut.antt =====
-- A `str` that is cut where a character begins is two.
use Prim.Native.Nat.{ℕ, zero, suc, ◌≤◌}
use mathlib.Core.Path.{◌≡◌, refl}
use mathlib.Core.Logic.{◌⊎◌}
use mathlib.Core.Bool.{true, false}
use mathlib.Core.List.{List, [], ◌∷◌, ◌++◌}
use native.Mathlib.Omega.{arith}
use rust_native_tls.Prelude.Utf8.{
  Expect, start, more, bad, between, after_lead, after_continuation, utf8_step, utf8_from, is_utf8,
  begins_char,
}

-- What may follow is a continuation byte, if it is not a new character.
abbrev IsFollowed : Expect → Type 0
IsFollowed start = Unit
IsFollowed (more lo hi n) = (0x80 ≤ lo) × (hi ≤ 0xBF)
IsFollowed bad = Unit

after_continuation-IsFollowed : (n : ℕ) → IsFollowed (after_continuation n)
unfolding after_continuation
after_continuation-IsFollowed zero = tt
after_continuation-IsFollowed (suc n) = (omega arith, omega arith)

after_lead-IsFollowed : (b : ℕ) → IsFollowed (after_lead b)
unfolding after_lead
after_lead-IsFollowed b = ground arith

utf8_step-IsFollowed : (e : Expect) (b : ℕ) → IsFollowed e → IsFollowed (utf8_step e b)
unfolding utf8_step
utf8_step-IsFollowed start b h = after_lead-IsFollowed b
utf8_step-IsFollowed (more lo hi n) b h = ground (arith, after_continuation-IsFollowed n)
utf8_step-IsFollowed bad b h = tt

utf8_from-bad : (bs : List ℕ) → utf8_from bad bs ≡ false
unfolding utf8_from utf8_step
utf8_from-bad [] = refl
utf8_from-bad (b ∷ bs) = utf8_from-bad bs

-- A character begins only where one is due.
utf8_from-begins :
    (e : Expect) (b : ℕ) (bs : List ℕ)
    → IsFollowed e
    → begins_char (b ∷ bs) ≡ true
    → utf8_from e (b ∷ bs) ≡ true
    → e ≡ start
unfolding utf8_from utf8_step between
utf8_from-begins start b bs h c u = refl
utf8_from-begins (more lo hi n) b bs h c u = ground (arith, utf8_from-bad bs)
utf8_from-begins bad b bs h c u = ground (arith, utf8_from-bad bs)

utf8_from-append :
    (e : Expect) (xs ys : List ℕ)
    → IsFollowed e
    → (ys ≡ []) ⊎ (begins_char ys ≡ true)
    → utf8_from e (xs ++ ys) ≡ true
    → (utf8_from e xs ≡ true) × (is_utf8 ys ≡ true)
unfolding utf8_from is_utf8
utf8_from-append e [] [] f h u = (u, refl)
utf8_from-append e [] (y ∷ ys) f h u = ground (arith, utf8_from-begins e y ys)
utf8_from-append start (x ∷ xs) ys f h u =
    utf8_from-append (utf8_step start x) xs ys (utf8_step-IsFollowed start x f) h u
utf8_from-append (more lo hi n) (x ∷ xs) ys f h u =
    utf8_from-append (utf8_step (more lo hi n) x) xs ys (utf8_step-IsFollowed (more lo hi n) x f) h
      u
utf8_from-append bad (x ∷ xs) ys f h u =
    utf8_from-append (utf8_step bad x) xs ys (utf8_step-IsFollowed bad x f) h u

-- A text whose second part is empty or begins a character is two texts.
pub is_utf8-append :
    (xs ys : List ℕ)
    → (ys ≡ []) ⊎ (begins_char ys ≡ true)
    → is_utf8 (xs ++ ys) ≡ true
    → (is_utf8 xs ≡ true) × (is_utf8 ys ≡ true)
unfolding is_utf8
is_utf8-append xs ys h u = utf8_from-append start xs ys tt h u
