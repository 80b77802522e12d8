-- ===== src/Schannel/Tests/PemSplit.antt =====
-- The test `test_split` of the module `pem` of src/imp/schannel.rs, an assertion each.
use rust_native_tls.Prelude.{
  ℕ, suc, ◌≡◌, refl, Option, some, List, [], ◌∷◌, length, codes, Result, ok, err, panic, Bool, true,
  false, ◌&&◌, ◌++◌, same_text, is_utf8, slice, slice_from,
}
use rust_native_tls.Schannel.Pem.{new, collect, next, find_guard, at_guard}

-- `PemBlock::new(data).collect()`, with fuel for one call more than there are bytes.
collected : List ℕ → Option (Result ℕ (List (List ℕ)))
unfolding new collect
collected bytes = elim (new {E = ℕ} bytes) [
  | ok it ↦ collect (suc (length bytes)) it
  | err e ↦ some (err e)
  | panic ↦ some panic
]

same_blocks : List (List ℕ) → List (List ℕ) → Bool
unfolding same_text
same_blocks [] [] = true
same_blocks (x ∷ xs) (y ∷ ys) = same_text x y && same_blocks xs ys
same_blocks _ _ = false

-- `assert_eq!`
asserted : Option (Result ℕ (List (List ℕ))) → List (List ℕ) → Bool
unfolding same_blocks
asserted (some (ok blocks)) expected = same_blocks blocks expected
asserted _ expected = false

-- Three certificates, CRLF line terminators.
abbrev three_crlf_input : List ℕ
three_crlf_input =
    codes "-----BEGIN FIRST-----\r\n-----END FIRST-----\r\n"
    ++ codes "-----BEGIN SECOND-----\r\n-----END SECOND\r\n"
    ++ codes "-----BEGIN THIRD-----\r\n-----END THIRD\r\n"

three_crlf : Bool
unfolding asserted collected
three_crlf = asserted (collected three_crlf_input) (
    codes "-----BEGIN FIRST-----\r\n-----END FIRST-----\r\n"
    ∷ codes "-----BEGIN SECOND-----\r\n-----END SECOND\r\n"
    ∷ codes "-----BEGIN THIRD-----\r\n-----END THIRD\r\n"
    ∷ [])

-- The same, except at the end of the file.
abbrev three_crlf_but_at_eof_input : List ℕ
three_crlf_but_at_eof_input =
    codes "-----BEGIN FIRST-----\r\n-----END FIRST-----\r\n"
    ++ codes "-----BEGIN SECOND-----\r\n-----END SECOND-----\r\n"
    ++ codes "-----BEGIN THIRD-----\r\n-----END THIRD-----"

three_crlf_but_at_eof : Bool
unfolding asserted collected
three_crlf_but_at_eof = asserted (collected three_crlf_but_at_eof_input) (
    codes "-----BEGIN FIRST-----\r\n-----END FIRST-----\r\n"
    ∷ codes "-----BEGIN SECOND-----\r\n-----END SECOND-----\r\n"
    ∷ codes "-----BEGIN THIRD-----\r\n-----END THIRD-----"
    ∷ [])

-- Two certificates, LF line terminators.
abbrev two_lf_input : List ℕ
two_lf_input =
    codes "-----BEGIN FIRST-----\n-----END FIRST-----\n"
    ++ codes "-----BEGIN SECOND-----\n-----END SECOND\n"

two_lf : Bool
unfolding asserted collected
two_lf = asserted (collected two_lf_input) (
    codes "-----BEGIN FIRST-----\n-----END FIRST-----\n"
    ∷ codes "-----BEGIN SECOND-----\n-----END SECOND\n"
    ∷ [])

-- Two certificates, CR line terminators.
abbrev two_cr_input : List ℕ
two_cr_input =
    codes "-----BEGIN FIRST-----\r-----END FIRST-----\r"
    ++ codes "-----BEGIN SECOND-----\r-----END SECOND\r"

two_cr : Bool
unfolding asserted collected
two_cr = asserted (collected two_cr_input) (
    codes "-----BEGIN FIRST-----\r-----END FIRST-----\r"
    ∷ codes "-----BEGIN SECOND-----\r-----END SECOND\r"
    ∷ [])

-- LF line terminators, except at the end of the file.
abbrev two_lf_but_at_eof_input : List ℕ
two_lf_but_at_eof_input =
    codes "-----BEGIN FIRST-----\n-----END FIRST-----\n"
    ++ codes "-----BEGIN SECOND-----\n-----END SECOND"

two_lf_but_at_eof : Bool
unfolding asserted collected
two_lf_but_at_eof = asserted (collected two_lf_but_at_eof_input) (
    codes "-----BEGIN FIRST-----\n-----END FIRST-----\n"
    ∷ codes "-----BEGIN SECOND-----\n-----END SECOND"
    ∷ [])

-- A single certificate.
abbrev one_lf_input : List ℕ
one_lf_input = codes "-----BEGIN FIRST-----\n-----END FIRST-----\n"

one_lf : Bool
unfolding asserted collected
one_lf =
    asserted (collected one_lf_input) (codes "-----BEGIN FIRST-----\n-----END FIRST-----\n" ∷ [])

-- A single certificate without a last line terminator.
abbrev one_lf_but_at_eof_input : List ℕ
one_lf_but_at_eof_input = codes "-----BEGIN FIRST-----\n-----END FIRST-----"

one_lf_but_at_eof : Bool
unfolding asserted collected
one_lf_but_at_eof =
    asserted (collected one_lf_but_at_eof_input)
      (codes "-----BEGIN FIRST-----\n-----END FIRST-----" ∷ [])

-- No guard, no block.
abbrev no_guard_input : List ℕ
no_guard_input = codes "junk"

no_guard : Bool
unfolding asserted collected
no_guard = asserted (collected no_guard_input) ([])

-- What precedes the first guard is in no block.
abbrev garbage_before_input : List ℕ
garbage_before_input = codes "junk" ++ codes "-----BEGIN garbage"

garbage_before : Bool
unfolding asserted collected
garbage_before = asserted (collected garbage_before_input) (codes "-----BEGIN garbage" ∷ [])

test_split : Bool
unfolding three_crlf three_crlf_but_at_eof two_lf two_cr two_lf_but_at_eof one_lf one_lf_but_at_eof
    no_guard garbage_before
test_split =
    three_crlf && three_crlf_but_at_eof && two_lf && two_cr && two_lf_but_at_eof && one_lf
    && one_lf_but_at_eof && no_guard && garbage_before

-- The test passes.
test_split_passes : test_split ≡ true
unfolding test_split collected asserted same_blocks new collect is_utf8 next find_guard slice
    slice_from at_guard same_text three_crlf three_crlf_but_at_eof two_lf two_cr two_lf_but_at_eof
    one_lf one_lf_but_at_eof no_guard garbage_before
test_split_passes = refl
