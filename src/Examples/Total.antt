-- ===== src/Examples/Total.antt =====
-- The loops `write_all` and `read_to_end` of Std come to an end where no call is interrupted.
use rust_native_tls.Prelude.{
  ℕ, zero, suc, ◌+◌, ◌≤◌, ◌<◌, ◌≡◌, refl, ap, false, Option, none, some, List, [], ◌∷◌, length,
  take, length-take, length-drop, length-append, zeros, Result, ok, err, panic, arith, Result-cases,
  inl, inr, ◌⊎◌,
}
use native.Mathlib.Nat.{zero-add, suc-add}
use rust_native_tls.Api.Backend.{Backend}
use rust_native_tls.Api.Streams
use rust_native_tls.Examples.Std.{
  StreamErrors, after_write, go_on, write_all, after_read, read_on, Progress, more, end, stopped,
  panicked, read_to_end,
}
use rust_native_tls.Examples.Wire.{Wire}

-- No call of `write` or `read` is interrupted.
pub record NeverInterrupted (B : Backend) (E : StreamErrors B) : Type 0 where
  pub writes :
      (s : B.TlsStream) (buf : List ℕ) (e : B.StreamError)
      → (B.write s buf).1 ≡ err e
      → E.is_interrupted e ≡ false
  pub reads :
      (s : B.TlsStream) (buf : List ℕ) (e : B.StreamError)
      → (B.read s buf).2 ≡ err e
      → E.is_interrupted e ≡ false

module _ (B : Backend) (E : StreamErrors B) where
  open B use {TlsStream, StreamError}

  -- More fuel changes no result.
  pub write_all-more :
      (fuel : ℕ) (s : TlsStream) (buf : List ℕ)
      → (write_all B E fuel s buf ≡ none)
        ⊎ (write_all B E (suc fuel) s buf ≡ write_all B E fuel s buf)
  unfolding write_all
  write_all-more fuel s [] = inr refl
  write_all-more zero s (b ∷ bs) = inl refl
  write_all-more (suc fuel) s (b ∷ bs) =
      let (s', r) = Streams.write B s (b ∷ bs) in
      elim (Result-cases (after_write B E (b ∷ bs) r)) [
        | inl (rest, e) ↦ rw (write_all, e) (write_all-more fuel s' rest)
        | inr (inl (x, e)) ↦ rw (write_all, e) (inr refl)
        | inr (inr e) ↦ rw (write_all, e) (inr refl)
      ]

  pub write_all-add :
      (k fuel : ℕ) (s : TlsStream) (buf : List ℕ) {r : TlsStream × Result StreamError (Unit {0})}
      → write_all B E fuel s buf ≡ some r
      → write_all B E (k + fuel) s buf ≡ some r
  write_all-add zero fuel s buf h = rw zero-add h
  write_all-add (suc k) fuel s buf h =
      rw suc-add (ground (arith, write_all-add k fuel s buf h, write_all-more (k + fuel) s buf))

  module _ (never : NeverInterrupted B E) where
    -- A call of `write` after which the loop goes on has taken a byte.
    after_write-shorter :
        (buf rest : List ℕ) (r : Result StreamError ℕ)
        → ((e : StreamError) → r ≡ err e → E.is_interrupted e ≡ false)
        → after_write B E buf r ≡ ok rest
        → length rest < length buf
    unfolding after_write
    after_write-shorter buf rest (ok zero) f h = cc
    after_write-shorter buf rest (ok (suc n)) f h = ground (arith, length-drop (suc n) buf)
    after_write-shorter buf rest (err e) f h = ground (arith, f e refl)
    after_write-shorter buf rest panic f h = cc

    -- The loop returns.
    abbrev pub Ends : {A : Type 0} → Option A → Type 0
    Ends {A} o = (a : A) × (o ≡ some a)

    go_on-Ends :
        (s : TlsStream) (r : Result StreamError (List ℕ))
        (loop : List ℕ → Option (TlsStream × Result StreamError (Unit {0})))
        → ((rest : List ℕ) → r ≡ ok rest → Ends (loop rest))
        → Ends (go_on B E loop s r)
    go_on-Ends s (ok rest) loop f = f rest refl
    go_on-Ends s (err e) loop f = ((s, err e), refl)
    go_on-Ends s panic loop f = ((s, panic), refl)

    pub write_all_total :
        (fuel : ℕ) (s : TlsStream) (buf : List ℕ)
        → length buf ≤ fuel
        → Ends (write_all B E fuel s buf)
    unfolding write_all Streams.write
    write_all_total fuel s [] h = (_, refl)
    write_all_total zero s (b ∷ bs) h = elim h [ ]
    write_all_total (suc fuel) s (b ∷ bs) h =
        let (t, r) = B.write s (b ∷ bs) in
        go_on-Ends t (after_write B E (b ∷ bs) r) (write_all B E fuel t) (λ rest e.
          write_all_total fuel t rest
            (omega (arith, after_write-shorter (b ∷ bs) rest r (never.writes s (b ∷ bs)) e)))

    module _ (W : Wire B) where
      -- A call of `read` after which the loop goes on leaves less ahead.
      after_read-less :
          (s t : TlsStream) (room : ℕ) (res buf res' : List ℕ) (r : Result StreamError ℕ)
          → B.read s (zeros (suc room)) ≡ (t, buf, r)
          → ((e : StreamError) → r ≡ err e → E.is_interrupted e ≡ false)
          → after_read B E res buf r ≡ more res'
          → length (W.ahead t) < length (W.ahead s)
      unfolding after_read
      after_read-less s t room res buf res' (ok zero) q f h = cc
      after_read-less s t room res buf res' (ok (suc n)) q f h = ground (
        arith,
        ap length (W.read-ok s t (zeros (suc room)) buf (suc n) q),
        length-append (take (suc n) buf) (W.ahead t),
        length-take (suc n) buf,
      )
      after_read-less s t room res buf res' (err e) q f h = ground (arith, f e refl)
      after_read-less s t room res buf res' panic q f h = cc

      read_on-Ends :
          (s : TlsStream) (p : Progress B E)
          (loop : List ℕ → Option (TlsStream × Result StreamError (List ℕ)))
          → ((res : List ℕ) → p ≡ more res → Ends (loop res))
          → Ends (read_on B E loop s p)
      read_on-Ends s (more res) loop f = f res refl
      read_on-Ends s (end res) loop f = ((s, ok res), refl)
      read_on-Ends s (stopped e) loop f = ((s, err e), refl)
      read_on-Ends s panicked loop f = ((s, panic), refl)

      pub read_to_end_total :
          (room : List ℕ → ℕ) (fuel : ℕ) (s : TlsStream) (res : List ℕ)
          → length (W.ahead s) < fuel
          → Ends (read_to_end B E (λ x. suc (room x)) fuel s res)
      unfolding read_to_end Streams.read
      read_to_end_total room zero s res h = elim h [ ]
      read_to_end_total room (suc fuel) s res h =
          let (t, buf, r) = B.read s (zeros (suc (room res))) in
          read_on-Ends t (after_read B E res buf r) (read_to_end B E (λ x. suc (room x)) fuel t)
            (λ res' e. read_to_end_total room fuel t res' (
              omega (
                arith,
                after_read-less s t (room res) res buf res' r refl
                    (never.reads s (zeros (suc (room res)))) e,
              )))
