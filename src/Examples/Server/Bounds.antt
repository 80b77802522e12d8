-- ===== src/Examples/Server/Bounds.antt =====
-- How many steps a run of an example server takes over streams that interrupt no call.
use rust_native_tls.Prelude.{
  ℕ, zero, suc, ◌+◌, ◌-◌, ◌*◌, ◌≤◌, ◌≡◌, refl, sym, ap, ◌∙◌, subst, true, false, some, List, [],
  ◌∷◌, ◌++◌, length, length-append, length-take, length-drop, length-zeros, zeros, take, Result, ok,
  err, panic, arith, Option-cases, inl, inr, codes, some_inj, ◌<◌,
}
use rust_native_tls.Api.Backend.{Backend}
use rust_native_tls.Api.Errors.{Interruption}
use rust_native_tls.Api.Streams
use rust_native_tls.Api.Connections
use rust_native_tls.Examples.Std.{StreamErrors, after_write}
use rust_native_tls.Examples.Server.{
  Program, simple_server, simple_server_pkcs8, Exit, connection, reply, reply_to,
}
use rust_native_tls.Examples.Server.Threads.{
  Thread, accepting, reading, writing, ended, advance, exit_from, exit_from-advance, accepted,
  replying, written,
}
use rust_native_tls.Examples.Server.Schedule.{
  Server, Incoming, connected, failed, is_live, turn_on, turn, Step, turns, runs, Runs, here, next,
  start,
}

-- What the loops rely on: a call of `write` is not interrupted, and a call of `read` leaves the
-- buffer as long as it was.
pub record IsSteady (B : Backend) (E : StreamErrors B) : Type 0 where
  pub uninterrupted :
      (s : B.TlsStream) (buf : List ℕ) (e : B.StreamError)
      → (B.write s buf).1 ≡ err e
      → E.is_interrupted e ≡ false
  pub read_length : (s : B.TlsStream) (buf : List ℕ) → length (B.read s buf).1 ≡ length buf

-- The length of `received ''`, and the most bytes of a reply.
abbrev frame : ℕ
frame = 11

abbrev longest_reply : ℕ
longest_reply = 1035

length-reply_to : (bytes : List ℕ) → length (reply_to bytes) ≡ length bytes + 11
length-reply_to bytes = omega (arith, length-append bytes (codes "'"))

length-reply :
    {E : Type 0} (buf : List ℕ) (r : Result E ℕ) (text : List ℕ)
    → length buf ≡ 1024
    → reply buf r ≡ some text
    → length text ≤ 1035
unfolding reply
length-reply buf (ok n) text l h = ground (arith, length-take n buf, length-reply_to (take n buf))
length-reply buf (err e) text l h = cc
length-reply buf panic text l h = cc

module _ (B : Backend) (N : Type 0) (E : StreamErrors B) (program : Program)
    (acceptor : B.TlsAcceptor) (steady : IsSteady B E) where
  open B use {TlsStream, StreamError}

  -- The most calls that a thread still makes.
  abbrev work : Thread B → ℕ
  work (accepting socket) = 1038
  work (reading s) = 1037
  work (writing s rest) = suc (length rest)
  work (ended exit) = 0

  shorter :
      (s : TlsStream) (b : ℕ) (bs : List ℕ) (r : Result StreamError ℕ)
      → ((e : StreamError) → r ≡ err e → E.is_interrupted e ≡ false)
      → work (written B E program acceptor s (after_write B E (b ∷ bs) r)) ≤ suc (length bs)
  unfolding after_write
  shorter s b bs (ok zero) h = omega arith
  shorter s b bs (ok (suc n)) h = ground (arith, length-drop n bs)
  shorter s b bs (err e) h = rw (h e refl) (omega arith)
  shorter s b bs panic h = omega arith

  work-accepted :
      (p : Program) (r : Result (Interruption B) TlsStream)
      → work (accepted B E program acceptor p r) ≤ 1037
  work-accepted simple_server (ok s) = omega arith
  work-accepted simple_server_pkcs8 (ok s) = omega arith
  work-accepted p (err e) = omega arith
  work-accepted p panic = omega arith

  work-replying :
      (s : TlsStream) (buf : List ℕ) (r : Result StreamError ℕ)
      → length buf ≡ 1024
      → work (replying B E program acceptor s (reply buf r)) ≤ 1036
  work-replying s buf r l = elim (Option-cases (reply buf r)) [
    | inl e ↦ rw e (omega arith)
    | inr (text, e) ↦ rw e (omega (arith, length-reply buf r text l e))
  ]

  -- A call of a live thread leaves it less work.
  work-advance :
      (t : Thread B) → is_live t ≡ true → suc (work (advance B E program acceptor t)) ≤ work t
  unfolding advance Streams.read Streams.write
  work-advance (accepting socket) live =
      omega (arith, work-accepted program (Connections.accept B acceptor socket))
  work-advance (reading s) live =
      let (s', buf, r) = B.read s (zeros 1024) in
      omega (arith, work-replying s' buf r (steady.read_length s (zeros 1024) ∙ length-zeros 1024))
  work-advance (writing s []) live = omega arith
  work-advance (writing s (b ∷ bs)) live =
      let (s', r) = B.write s (b ∷ bs) in
      omega (arith, shorter s' b bs r (steady.uninterrupted s (b ∷ bs)))
  work-advance (ended exit) live = cc

  total : List (Thread B) → ℕ
  total [] = 0
  total (t ∷ ts) = work t + total ts

  waiting : List (Incoming B.Socket N) → ℕ
  waiting [] = 0
  waiting (connected socket ∷ left) = 1039 + waiting left
  waiting (failed e ∷ left) = 1 + waiting left

  -- The most steps that a server still makes.
  abbrev server_work : Server B N → ℕ
  server_work v = waiting v.incoming + total v.threads

  total-append : (xs ys : List (Thread B)) → total (xs ++ ys) ≡ total xs + total ys
  unfolding total
  total-append [] ys = omega arith
  total-append (x ∷ xs) ys = omega (arith, total-append xs ys)

  turn-work :
      (left : List (Incoming B.Socket N)) (ts : List (Thread B)) (w : Server B N)
      → turn_on B N E program acceptor left ts ≡ some w
      → server_work w < waiting left + total ts
  unfolding total waiting
  turn-work [] ts w h = cc
  turn-work (connected s ∷ left) ts w h =
      subst (λ v. server_work v < waiting (connected s ∷ left) + total ts) (some_inj.0 h)
        (omega (arith, total-append ts (accepting s ∷ [])))
  turn-work (failed e ∷ left) ts w h =
      subst (λ v. server_work v < waiting (failed e ∷ left) + total ts) (some_inj.0 h) (omega arith)

  Step-work : (v w : Server B N) → Step B N E program acceptor v w → server_work w < server_work v
  unfolding turn total
  Step-work v w (turns e) = turn-work v.incoming v.threads w e
  Step-work v w (runs before t after q live e) =
      subst (λ u. server_work u < server_work v) (sym e)
        (omega (
          arith,
          ap total q,
          total-append before (t ∷ after),
          total-append before (advance B E program acceptor t ∷ after),
          work-advance t live,
        ))

  Runs-work :
      {v w : Server B N} {n : ℕ}
      → Runs B N E program acceptor v w n
      → n + server_work w ≤ server_work v
  Runs-work here = omega arith
  Runs-work (next {u = u} {w = w} r st) = omega (arith, Runs-work r, Step-work u w st)

  waiting_bound : (inc : List (Incoming B.Socket N)) → waiting inc ≤ 1039 * length inc
  unfolding waiting
  waiting_bound [] = omega arith
  waiting_bound (connected s ∷ inc) = omega (arith, waiting_bound inc)
  waiting_bound (failed e ∷ inc) = omega (arith, waiting_bound inc)

  -- Where no call of `write` is interrupted and `read` keeps the length of the buffer: a run of a
  -- server takes at most 1039 steps for each result of the listener.
  pub Runs-bounded :
      (inc : List (Incoming B.Socket N)) {w : Server B N} {n : ℕ}
      → Runs B N E program acceptor (start B N E program acceptor inc) w n
      → n ≤ 1039 * length inc
  unfolding total
  Runs-bounded inc r = omega (arith, Runs-work r, waiting_bound inc)

  work_less : (t : Thread B) → work (advance B E program acceptor t) ≤ work t - 1
  unfolding advance
  work_less (accepting socket) = omega (arith, work-advance (accepting socket) refl)
  work_less (reading s) = omega (arith, work-advance (reading s) refl)
  work_less (writing s rest) = omega (arith, work-advance (writing s rest) refl)
  work_less (ended exit) = omega arith

  exit_from_total :
      (fuel : ℕ) (t : Thread B)
      → work t ≤ fuel
      → (exit : Exit B) × (exit_from B E program acceptor fuel t ≡ some exit)
  exit_from_total fuel (ended exit) h = (exit, refl)
  exit_from_total zero (accepting socket) h = elim h [ ]
  exit_from_total zero (reading s) h = elim h [ ]
  exit_from_total zero (writing s rest) h = elim h [ ]
  exit_from_total (suc fuel) t h =
      let (exit, e) =
        exit_from_total fuel (advance B E program acceptor t) (omega (arith, work_less t)) in
      (exit, exit_from-advance B E program acceptor fuel t e)

  -- Where no call of `write` is interrupted and `read` keeps the length of the buffer: a connection
  -- of a server comes to its end on its own, by a panic or not, with fuel for 1038 calls.
  pub connection_total :
      (socket : B.Socket)
      → (exit : Exit B) × (connection B E program acceptor 1038 socket ≡ some exit)
  connection_total socket = exit_from_total 1038 (accepting socket) (omega arith)
