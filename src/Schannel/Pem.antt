-- ===== src/Schannel/Pem.antt =====
-- Module `pem` of src/imp/schannel.rs: `PemBlock`, its constructor and its `Iterator::next`.
-- A `str` is its bytes; slicing off a character boundary and `unwrap` panic, as in Rust.
pub mod Split
pub mod Blocks
use rust_native_tls.Prelude.{
  ℕ, zero, suc, ◌+◌, Option, none, some, Bool, List, [], ◌∷◌, leb, length, starts_with, codes,
  Result, ok, err, panic, ◌>>=◌, is_utf8, slice_from, slice, if◌then◌else◌,
}

abbrev pub begin_guard : List ℕ
begin_guard = codes "-----BEGIN"

-- A guard stands at the front of the text.
unfoldable pub at_guard : List ℕ → Bool
at_guard s = starts_with s begin_guard

-- `s.find("-----BEGIN")`: the offset of the first occurrence.
unfoldable pub find_guard : List ℕ → Option ℕ
find_guard [] = none
find_guard (x ∷ xs) =
    let rest = find_guard xs in
    if at_guard (x ∷ xs) then some 0 else elim rest [ none ↦ none | some k ↦ some (suc k) ]

pub record PemBlock : Type 0 where
  pub pem_block : List ℕ
  pub cur_end : ℕ

abbrev unwrap_or : Option ℕ → ℕ → ℕ
unwrap_or none d = d
unwrap_or (some k) d = k

unfoldable pub new : {E : Type 0} → List ℕ → Result E PemBlock
new bytes =
    if is_utf8 bytes
    then ok (record { pem_block = bytes; cur_end = unwrap_or (find_guard bytes) (length bytes) })
    else panic

-- `match pos { Some(end) => end + begin + 1, None => last }`
abbrev pub next_end : Option ℕ → ℕ → ℕ → ℕ
next_end none begin last = last
next_end (some end) begin last = end + begin + 1

-- One call of the iterator: the block, if any, and the iterator after the call.
unfoldable pub next : {E : Type 0} → PemBlock → Result E (Option (List ℕ) × PemBlock)
next it =
    let last = length it.pem_block in
    let begin = it.cur_end in
    if leb last begin then ok (none, it) else do
      rest ← slice_from it.pem_block (begin + 1)
      let cur_end = next_end (find_guard rest) begin last
      block ← slice it.pem_block begin cur_end
      ok (some block, record it { cur_end = cur_end })

abbrev prepend :
    {E : Type 0} → List ℕ → Option (Result E (List (List ℕ))) → Option (Result E (List (List ℕ)))
prepend b none = none
prepend b (some (ok bs)) = some (ok (b ∷ bs))
prepend b (some (err e)) = some (err e)
prepend b (some panic) = some panic

-- Every block that the iterator yields until it ends, by calls of `next`. `none` means that the
-- fuel, the number of calls, ran out.
unfoldable pub collect : {E : Type 0} → ℕ → PemBlock → Option (Result E (List (List ℕ)))
collect zero it = none
collect {E} (suc fuel) it = elim (next {E = E} it) [
  | ok (none, end) ↦ some (ok [])
  | ok (some block, rest) ↦ prepend block (collect fuel rest)
  | err e ↦ some (err e)
  | panic ↦ some panic
]
