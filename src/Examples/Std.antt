-- ===== src/Examples/Std.antt =====
-- `Write::write_all` and `Read::read_to_end` of the standard library on a stream of src/lib.rs, as
-- the programs under examples/ use them, and `Result::unwrap`.
use rust_native_tls.Prelude.{
  zeros, ℕ, zero, suc, Bool, Option, none, some, List, [], ◌∷◌, ◌++◌, length, take, drop, leb,
  Result, ok, err, panic, if◌then◌else◌,
}
use rust_native_tls.Api.Backend.{Backend}
use rust_native_tls.Api.Streams

abbrev pub unwrap {ℓ κ μ} : {E : Type ℓ} {F : Type κ} {A : Type μ} → Result E A → Result F A
unwrap (ok a) = ok a
unwrap (err e) = panic
unwrap panic = panic

-- `io::Error` as far as the loops read and make it: `e.kind() == ErrorKind::Interrupted`, and the
-- error of a write that takes nothing.
pub record StreamErrors (B : Backend) : Type 0 where
  pub is_interrupted : B.StreamError → Bool
  pub write_zero : B.StreamError

module _ (B : Backend) (E : StreamErrors B) where
  open B use {TlsStream, StreamError}

  -- What is left of the buffer after a call of `write`.
  unfoldable pub after_write : List ℕ → Result StreamError ℕ → Result StreamError (List ℕ)
  after_write buf (ok zero) = err E.write_zero
  after_write buf (ok (suc n)) = if leb (suc n) (length buf) then ok (drop (suc n) buf) else panic
  after_write buf (err e) = if E.is_interrupted e then ok buf else err e
  after_write buf panic = panic

  -- The next turn of the loop, unless the call ended it.
  abbrev pub go_on :
      (List ℕ → Option (TlsStream × Result StreamError (Unit {0})))
      → TlsStream
      → Result StreamError (List ℕ)
      → Option (TlsStream × Result StreamError (Unit {0}))
  go_on loop s (ok rest) = loop rest
  go_on loop s (err e) = some (s, err e)
  go_on loop s panic = some (s, panic)

  -- `none` means that the fuel, the number of calls of `write`, ran out.
  unfoldable pub write_all :
      ℕ → TlsStream → List ℕ → Option (TlsStream × Result StreamError (Unit {0}))
  write_all fuel s [] = some (s, ok tt)
  write_all zero s (b ∷ bs) = none
  write_all (suc fuel) s (b ∷ bs) =
      let (s', r) = Streams.write B s (b ∷ bs) in
      go_on (write_all fuel s') s' (after_write (b ∷ bs) r)

  -- What a call of `read` says of the loop: the bytes so far, and whether it goes on.
  pub data Progress : Type 0 where
    more : List ℕ → Progress
    end : List ℕ → Progress
    stopped : StreamError → Progress
    panicked : Progress

  unfoldable pub after_read : List ℕ → List ℕ → Result StreamError ℕ → Progress
  after_read res buf (ok zero) = end res
  after_read res buf (ok (suc n)) =
      if leb (suc n) (length buf) then more (res ++ take (suc n) buf) else panicked
  after_read res buf (err e) = if E.is_interrupted e then more res else stopped e
  after_read res buf panic = panicked

  abbrev pub read_on :
      (List ℕ → Option (TlsStream × Result StreamError (List ℕ)))
      → TlsStream
      → Progress
      → Option (TlsStream × Result StreamError (List ℕ))
  read_on loop s (more res) = loop res
  read_on loop s (end res) = some (s, ok res)
  read_on loop s (stopped e) = some (s, err e)
  read_on loop s panicked = some (s, panic)

  -- The bytes read after those of `res`. `spare` is the room that the vector makes for the next
  -- call, and the fuel the number of calls of `read`.
  unfoldable pub read_to_end :
      (List ℕ → ℕ) → ℕ → TlsStream → List ℕ → Option (TlsStream × Result StreamError (List ℕ))
  read_to_end spare zero s res = none
  read_to_end spare (suc fuel) s res =
      let (s', buf, r) = Streams.read B s (zeros (spare res)) in
      read_on (read_to_end spare fuel s') s' (after_read res buf r)
