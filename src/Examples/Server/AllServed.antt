-- ===== src/Examples/Server/AllServed.antt =====
-- A run of an example server that has no step left.
use rust_native_tls.Prelude.{
  ℕ, ◌≡◌, refl, sym, ap, ◌∙◌, subst, false, some, List, [], ◌∷◌, ◌++◌, append-nil, append_assoc,
  inl, inr, List-cases, Bool-cases, All,
}
use rust_native_tls.Api.Backend.{Backend}
use rust_native_tls.Examples.Std.{StreamErrors}
use rust_native_tls.Examples.Server.{Program, Exit, connection}
use rust_native_tls.Examples.Server.Threads.{Thread, accepting, reading, writing, ended}
use rust_native_tls.Examples.Server.Schedule.{
  Server, Incoming, connected, failed, is_live, turn_on, turn, Step, turns, runs, Runs, start,
  sockets, Each, IsServed, Runs-IsServed,
}

module _ (B : Backend) (N : Type 0) (E : StreamErrors B) (program : Program)
    (acceptor : B.TlsAcceptor) where
  -- No step is left.
  abbrev pub IsStuck : Server B N → Type 0
  IsStuck w = (u : Server B N) → ¬ Step B N E program acceptor w u

  abbrev HasEnded : Thread B → Type 0
  HasEnded t = is_live t ≡ false

  IsStuck-ended :
      (w : Server B N) (before ts : List (Thread B))
      → IsStuck w
      → w.threads ≡ before ++ ts
      → All HasEnded ts
  IsStuck-ended w before [] stuck q = tt
  IsStuck-ended w before (t ∷ ts) stuck q = (
    elim (Bool-cases (is_live t)) [
      | inl live ↦ absurd (stuck _ (runs before t ts q live refl))
      | inr over ↦ over
    ],
    IsStuck-ended w (before ++ (t ∷ [])) ts stuck (q ∙ sym (append_assoc before (t ∷ []) ts)),
  )

  IsStuck-incoming : (w : Server B N) → IsStuck w → w.incoming ≡ []
  unfolding turn
  IsStuck-incoming w stuck = elim (List-cases w.incoming) [
    | inl e ↦ e
    | inr (connected s, left, e) ↦
        absurd (stuck _ (turns (ap (λ l. turn_on B N E program acceptor l w.threads) e)))
    | inr (failed x, left, e) ↦
        absurd (stuck _ (turns (ap (λ l. turn_on B N E program acceptor l w.threads) e)))
  ]

  -- The thread has ended, as its connection does on its own.
  abbrev pub HasServed : B.Socket → Thread B → Type 0
  HasServed socket t =
      (exit : Exit B) × (fuel : ℕ) × (t ≡ ended exit)
      × (connection B E program acceptor fuel socket ≡ some exit)

  IsServed-HasServed :
      (s : B.Socket) (t : Thread B)
      → HasEnded t
      → IsServed B N E program acceptor s t
      → HasServed s t
  IsServed-HasServed s (ended exit) live (fuel, e) = (exit, fuel, refl, e)
  IsServed-HasServed s (accepting socket) live h = cc
  IsServed-HasServed s (reading stream) live h = cc
  IsServed-HasServed s (writing stream rest) live h = cc

  Each-HasServed :
      (ss : List B.Socket) (ts : List (Thread B))
      → All HasEnded ts
      → Each B N E program acceptor (IsServed B N E program acceptor) ss ts
      → Each B N E program acceptor HasServed ss ts
  Each-HasServed [] [] e h = tt
  Each-HasServed (s ∷ ss) (t ∷ ts) (e, es) (h, hs) =
      (IsServed-HasServed s t e h, Each-HasServed ss ts es hs)
  Each-HasServed [] (t ∷ ts) e h = elim h [ ]
  Each-HasServed (s ∷ ss) [] e h = elim h [ ]

  -- Where a run of a server comes to where no step is left, each connection that did not fail has
  -- a thread, in order, and the thread has ended as the connection does on its own: a failed
  -- handshake or a panic of one thread keeps no other connection from being served.
  pub Runs-all_served :
      (inc : List (Incoming B.Socket N)) {w : Server B N} {n : ℕ}
      → Runs B N E program acceptor (start B N E program acceptor inc) w n
      → IsStuck w
      → Each B N E program acceptor HasServed (sockets B N E program acceptor inc) w.threads
  Runs-all_served inc {w} r stuck =
      let (ss, q, h) = Runs-IsServed B N E program acceptor inc r in
      let all_of : sockets B N E program acceptor inc ≡ ss =
        q
        ∙ ap (λ l. ss ++ sockets B N E program acceptor l) (IsStuck-incoming w stuck)
        ∙ append-nil ss in
      subst (λ l. Each B N E program acceptor HasServed l w.threads) (sym all_of)
        (Each-HasServed ss w.threads (IsStuck-ended w [] w.threads stuck refl) h)
