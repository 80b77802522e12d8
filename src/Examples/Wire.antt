-- ===== src/Examples/Wire.antt =====
-- The bytes that `write_all` and `read_to_end` of Std pass to and from the peer.
use rust_native_tls.Prelude.{
  ℕ, zero, suc, ◌≡◌, refl, sym, ap, ◌∙◌, Option, some, some_inj, List, [], ◌∷◌, ◌++◌, take, drop,
  take-append-drop, append-nil, append_assoc, zeros, Result, ok, err, panic, arith,
}
use rust_native_tls.Api.Backend.{Backend}
use rust_native_tls.Api.Streams
use rust_native_tls.Examples.Std.{
  StreamErrors, after_write, go_on, read_on, write_all, after_read, Progress, read_to_end, more,
  end, stopped, panicked,
}

-- `Read` and `Write` as documented: a stream has sent some bytes, and its peer will send others. A
-- call that fails passes none, and a call of `read` with room that reads none is at the end.
pub record Wire (B : Backend) : Type 0 where
  pub sent : B.TlsStream → List ℕ
  pub ahead : B.TlsStream → List ℕ
  pub write-ok :
      (s s' : B.TlsStream) (buf : List ℕ) (n : ℕ)
      → B.write s buf ≡ (s', ok n)
      → sent s' ≡ sent s ++ take n buf
  pub write-err :
      (s s' : B.TlsStream) (buf : List ℕ) (e : B.StreamError)
      → B.write s buf ≡ (s', err e)
      → sent s' ≡ sent s
  pub read-sent : (s : B.TlsStream) (buf : List ℕ) → sent (B.read s buf).0 ≡ sent s
  pub read-ok :
      (s s' : B.TlsStream) (buf buf' : List ℕ) (n : ℕ)
      → B.read s buf ≡ (s', buf', ok n)
      → ahead s ≡ take n buf' ++ ahead s'
  pub read-end :
      (s s' : B.TlsStream) (room : ℕ) (buf' : List ℕ)
      → B.read s (zeros (suc room)) ≡ (s', buf', ok 0)
      → ahead s ≡ []
  pub read-err :
      (s s' : B.TlsStream) (buf buf' : List ℕ) (e : B.StreamError)
      → B.read s buf ≡ (s', buf', err e)
      → ahead s' ≡ ahead s

module _ (B : Backend) (E : StreamErrors B) (W : Wire B) where
  open B use {TlsStream, StreamError}

  after_write-ok :
      (buf rest : List ℕ) (n : ℕ)
      → after_write B E buf (ok (suc n)) ≡ ok rest
      → rest ≡ drop (suc n) buf
  unfolding after_write
  after_write-ok buf rest n h = ground arith

  after_write-err :
      (buf rest : List ℕ) (e : StreamError) → after_write B E buf (err e) ≡ ok rest → rest ≡ buf
  unfolding after_write
  after_write-err buf rest e h = ground arith

  -- What a call that leaves `rest` of the buffer has sent.
  after_write-sent :
      (s s' : TlsStream) (buf rest : List ℕ) (r : Result StreamError ℕ)
      → B.write s buf ≡ (s', r)
      → after_write B E buf r ≡ ok rest
      → W.sent s' ++ rest ≡ W.sent s ++ buf
  unfolding after_write
  after_write-sent s s' buf rest (ok zero) q h = cc
  after_write-sent s s' buf rest (ok (suc n)) q h =
      let kept = after_write-ok buf rest n h in
      let sent = W.write-ok s s' buf (suc n) q in
      let whole = take-append-drop (suc n) buf in
      let assoc = append_assoc (W.sent s) (take (suc n) buf) (drop (suc n) buf) in cc
  after_write-sent s s' buf rest (err e) q h =
      let kept = after_write-err buf rest e h in let sent = W.write-err s s' buf e q in cc
  after_write-sent s s' buf rest panic q h = cc

  go_on-sent :
      (s t s' : TlsStream) (buf : List ℕ) (r : Result StreamError (List ℕ))
      (loop : List ℕ → Option (TlsStream × Result StreamError (Unit {0})))
      → ((rest : List ℕ) → loop rest ≡ some (s', ok tt) → W.sent s' ≡ W.sent t ++ rest)
      → ((rest : List ℕ) → r ≡ ok rest → W.sent t ++ rest ≡ W.sent s ++ buf)
      → go_on B E loop t r ≡ some (s', ok tt)
      → W.sent s' ≡ W.sent s ++ buf
  go_on-sent s t s' buf (ok rest) loop later now h = later rest h ∙ now rest refl
  go_on-sent s t s' buf (err e) loop later now h = cc
  go_on-sent s t s' buf panic loop later now h = cc

  -- A `write_all` that succeeds has sent the whole buffer, in order, whatever calls it took.
  pub write_all-sent :
      (fuel : ℕ) (s s' : TlsStream) (buf : List ℕ)
      → write_all B E fuel s buf ≡ some (s', ok tt)
      → W.sent s' ≡ W.sent s ++ buf
  unfolding write_all Streams.write
  write_all-sent fuel s s' [] h = rw append-nil (ap W.sent (sym (ap (λ p. p.0) (some_inj.0 h))))
  write_all-sent zero s s' (b ∷ bs) h = cc
  write_all-sent (suc fuel) s s' (b ∷ bs) h =
      let (t, r) = B.write s (b ∷ bs) in
      go_on-sent s t s' (b ∷ bs) (after_write B E (b ∷ bs) r) (write_all B E fuel t)
        (λ rest. write_all-sent fuel t s' rest)
        (λ rest e. after_write-sent s t (b ∷ bs) rest r refl e) h

  after_read-ok :
      (res buf res' : List ℕ) (n : ℕ)
      → after_read B E res buf (ok (suc n)) ≡ more res'
      → res' ≡ res ++ take (suc n) buf
  unfolding after_read
  after_read-ok res buf res' n h = ground arith

  after_read-err :
      (res buf res' : List ℕ) (e : StreamError)
      → after_read B E res buf (err e) ≡ more res'
      → res' ≡ res
  unfolding after_read
  after_read-err res buf res' e h = ground arith

  -- What a call of `read` with room for `suc room` bytes says.
  after_read-more :
      (s t : TlsStream) (room : ℕ) (res buf res' : List ℕ) (r : Result StreamError ℕ)
      → B.read s (zeros (suc room)) ≡ (t, buf, r)
      → after_read B E res buf r ≡ more res'
      → res' ++ W.ahead t ≡ res ++ W.ahead s
  unfolding after_read
  after_read-more s t room res buf res' (ok zero) q h = cc
  after_read-more s t room res buf res' (ok (suc n)) q h =
      let longer = after_read-ok res buf res' n h in
      let front = W.read-ok s t (zeros (suc room)) buf (suc n) q in
      let assoc = append_assoc res (take (suc n) buf) (W.ahead t) in cc
  after_read-more s t room res buf res' (err e) q h =
      let same = after_read-err res buf res' e h in
      let kept = W.read-err s t (zeros (suc room)) buf e q in cc
  after_read-more s t room res buf res' panic q h = cc

  after_read-end :
      (s t : TlsStream) (room : ℕ) (res buf res' : List ℕ) (r : Result StreamError ℕ)
      → B.read s (zeros (suc room)) ≡ (t, buf, r)
      → after_read B E res buf r ≡ end res'
      → res' ≡ res ++ W.ahead s
  unfolding after_read
  after_read-end s t room res buf res' (ok zero) q h =
      let nothing = W.read-end s t room buf q in let whole = append-nil res in cc
  after_read-end s t room res buf res' (ok (suc n)) q h = ground arith
  after_read-end s t room res buf res' (err e) q h = ground arith
  after_read-end s t room res buf res' panic q h = cc

  read_on-ahead :
      (s t s' : TlsStream) (res bytes : List ℕ) (p : Progress B E)
      (loop : List ℕ → Option (TlsStream × Result StreamError (List ℕ)))
      → ((res' : List ℕ) → loop res' ≡ some (s', ok bytes) → bytes ≡ res' ++ W.ahead t)
      → ((res' : List ℕ) → p ≡ more res' → res' ++ W.ahead t ≡ res ++ W.ahead s)
      → ((res' : List ℕ) → p ≡ end res' → res' ≡ res ++ W.ahead s)
      → read_on B E loop t p ≡ some (s', ok bytes)
      → bytes ≡ res ++ W.ahead s
  read_on-ahead s t s' res bytes (more res') loop later now last h = later res' h ∙ now res' refl
  read_on-ahead s t s' res bytes (end res') loop later now last h = let here = last res' refl in cc
  read_on-ahead s t s' res bytes (stopped e) loop later now last h = cc
  read_on-ahead s t s' res bytes panicked loop later now last h = cc

  -- A `read_to_end` that succeeds has read all that the peer sends, whatever room the vector makes.
  pub read_to_end-ahead :
      (room : List ℕ → ℕ) (fuel : ℕ) (s s' : TlsStream) (res bytes : List ℕ)
      → read_to_end B E (λ r. suc (room r)) fuel s res ≡ some (s', ok bytes)
      → bytes ≡ res ++ W.ahead s
  unfolding read_to_end Streams.read
  read_to_end-ahead room zero s s' res bytes h = cc
  read_to_end-ahead room (suc fuel) s s' res bytes h =
      let (t, buf, r) = B.read s (zeros (suc (room res))) in
      read_on-ahead s t s' res bytes (after_read B E res buf r)
        (read_to_end B E (λ x. suc (room x)) fuel t)
        (λ res'. read_to_end-ahead room fuel t s' res' bytes)
        (λ res'. after_read-more s t (room res) res buf res' r refl)
        (λ res'. after_read-end s t (room res) res buf res' r refl) h
