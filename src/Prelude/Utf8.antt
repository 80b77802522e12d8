-- ===== src/Prelude/Utf8.antt =====
-- `std::str::from_utf8` and slicing of `str` by byte offsets, over bytes as numbers.
pub mod Cut
use rust_native_tls.Prelude.Tests.{leb, ltb, ◌==◌, if◌then◌else◌}
use rust_native_tls.Prelude.Lists.{length, take, drop}
use rust_native_tls.Prelude.Results.{Result, ok, panic}
use Prim.Native.Nat.{ℕ, ◌-◌, zero, suc}
use mathlib.Core.Bool.{Bool, true, false, ◌&&◌, ◌||◌}
use mathlib.Core.List.{List, [], ◌∷◌}

between : ℕ → ℕ → ℕ → Bool
between lo hi b = leb lo b && leb b hi

-- What may follow the bytes read so far: a new character, or so many more continuation bytes, the
-- first of which lies in the given range.
pub data Expect : Type 0 where
  start : Expect
  more : ℕ → ℕ → ℕ → Expect
  bad : Expect

after_lead : ℕ → Expect
after_lead b =
    if ltb b 0x80
    then start
    else if between 0xC2 0xDF b
    then more 0x80 0xBF 0
    else if b == 0xE0
    then more 0xA0 0xBF 1
    else if b == 0xED
    then more 0x80 0x9F 1
    else if between 0xE1 0xEF b
    then more 0x80 0xBF 1
    else if b == 0xF0
    then more 0x90 0xBF 2
    else if between 0xF1 0xF3 b
    then more 0x80 0xBF 2
    else if b == 0xF4
    then more 0x80 0x8F 2
    else bad

after_continuation : ℕ → Expect
after_continuation zero = start
after_continuation (suc n) = more 0x80 0xBF n

utf8_step : Expect → ℕ → Expect
utf8_step start b = after_lead b
utf8_step (more lo hi n) b = if between lo hi b then after_continuation n else bad
utf8_step bad b = bad

utf8_from : Expect → List ℕ → Bool
utf8_from start [] = true
utf8_from (more lo hi n) [] = false
utf8_from bad [] = false
utf8_from e (b ∷ bs) = utf8_from (utf8_step e b) bs

-- Whether `from_utf8` accepts the bytes.
unfoldable pub is_utf8 : List ℕ → Bool
unfolding utf8_from utf8_step after_lead after_continuation between
is_utf8 bs = utf8_from start bs

-- The byte at the front of `bs`, if there is one, begins a character.
abbrev pub begins_char : List ℕ → Bool
begins_char [] = false
begins_char (b ∷ bs) = ltb b 0x80 || leb 0xC0 b

-- `str::is_char_boundary`
abbrev pub is_char_boundary : List ℕ → ℕ → Bool
is_char_boundary s i = i == 0 || i == length s || begins_char (drop i s)

-- `&s[a..]`, which panics where the offset is not on a boundary.
unfoldable pub slice_from : {E : Type 0} → List ℕ → ℕ → Result E (List ℕ)
slice_from s a = if is_char_boundary s a then ok (drop a s) else panic

-- `&s[a..b]`
unfoldable pub slice : {E : Type 0} → List ℕ → ℕ → ℕ → Result E (List ℕ)
slice s a b =
    if leb a b && is_char_boundary s a && is_char_boundary s b
    then ok (take (b - a) (drop a s))
    else panic
