-- ===== src/Examples/Server/Schedule.antt =====
-- The loop of the example servers over the incoming connections, and the threads that it spawns,
-- in any order of their calls.
use rust_native_tls.Prelude.{
  some_inj, ℕ, suc, ◌≡◌, refl, sym, ◌∙◌, subst, Option, none, some, List, [], ◌∷◌, ◌++◌, Bool, true,
  false, append_assoc,
}
use rust_native_tls.Api.Backend.{Backend}
use rust_native_tls.Examples.Std.{StreamErrors}
use rust_native_tls.Examples.Server.{Program, Exit, connection}
use rust_native_tls.Examples.Server.Threads.{
  Thread, accepting, reading, writing, ended, advance, exit_from, exit_from-advance,
}

-- What `listener.incoming()` yields, an `io::Result<TcpStream>`.
pub data Incoming (S N : Type 0) : Type 0 where
  connected : S → Incoming S N
  failed : N → Incoming S N

-- The connections that `listener.incoming()` still yields, and the threads in the order in which
-- they were spawned. `N` is the error of the listener.
pub record Server (B : Backend) (N : Type 0) : Type 0 where
  pub incoming : List (Incoming B.Socket N)
  pub threads : List (Thread B)

abbrev pub is_live : {B : Backend} → Thread B → Bool
is_live (ended exit) = false
is_live _ = true

module _ (B : Backend) (N : Type 0) (E : StreamErrors B) (program : Program)
    (acceptor : B.TlsAcceptor) where
  -- A turn of the loop, unless it waits for a connection. A connection that failed is passed over.
  abbrev pub turn_on : List (Incoming B.Socket N) → List (Thread B) → Option (Server B N)
  turn_on [] threads = none
  turn_on (connected socket ∷ incoming) threads =
      some (record { incoming = incoming; threads = threads ++ (accepting socket ∷ []) })
  turn_on (failed e ∷ incoming) threads = some (record { incoming = incoming; threads = threads })

  unfoldable pub turn : Server B N → Option (Server B N)
  turn v = turn_on v.incoming v.threads

  -- A turn of the loop, or a call of one of the threads that have not ended.
  pub data Step (v w : Server B N) : Type 0 where
    turns : turn v ≡ some w → Step v w
    runs :
        (before : List (Thread B)) (t : Thread B) (after : List (Thread B))
        → v.threads ≡ before ++ (t ∷ after)
        → is_live t ≡ true
        → w ≡ record v { threads = before ++ (advance B E program acceptor t ∷ after) }
        → Step v w

  -- A run of so many steps.
  pub data Runs (v : Server B N) : Server B N → ℕ → Type 0 where
    here : Runs v v 0
    next : {u w : Server B N} {n : ℕ} → Runs v u n → Step u w → Runs v w (suc n)

  abbrev pub start : List (Incoming B.Socket N) → Server B N
  start incoming = record { incoming = incoming; threads = [] }

  -- The connections that did not fail.
  abbrev pub sockets : List (Incoming B.Socket N) → List B.Socket
  sockets [] = []
  sockets (connected socket ∷ incoming) = socket ∷ sockets incoming
  sockets (failed e ∷ incoming) = sockets incoming

  -- If the thread comes to an end on its own, then the connection does, and in the same way.
  abbrev IsThreadOf : B.Socket → Thread B → Type 0
  IsThreadOf socket t =
      (fuel : ℕ) (exit : Exit B)
      → exit_from B E program acceptor fuel t ≡ some exit
      → (fuel' : ℕ) × (connection B E program acceptor fuel' socket ≡ some exit)

  abbrev pub Each : (B.Socket → Thread B → Type 0) → List B.Socket → List (Thread B) → Type 0
  Each P [] [] = Unit
  Each P (s ∷ ss) (t ∷ ts) = P s t × Each P ss ts
  Each P _ _ = ⊥

  -- The threads are those of the connections accepted so far.
  abbrev IsOf : List (Incoming B.Socket N) → Server B N → Type 0
  IsOf incoming v =
      (accepted : List B.Socket) × (sockets incoming ≡ accepted ++ sockets v.incoming)
      × Each IsThreadOf accepted v.threads

  Each-spawn :
      (ss : List B.Socket) (ts : List (Thread B)) (socket : B.Socket)
      → Each IsThreadOf ss ts
      → Each IsThreadOf (ss ++ (socket ∷ [])) (ts ++ (accepting socket ∷ []))
  Each-spawn [] [] socket h = (λ fuel exit e. (fuel, e), tt)
  Each-spawn (s ∷ ss) (t ∷ ts) socket (h, hs) = (h, Each-spawn ss ts socket hs)
  Each-spawn [] (t ∷ ts) socket h = elim h [ ]
  Each-spawn (s ∷ ss) [] socket h = elim h [ ]

  Each-advance :
      (ss : List B.Socket) (before : List (Thread B)) (t : Thread B) (after : List (Thread B))
      → Each IsThreadOf ss (before ++ (t ∷ after))
      → Each IsThreadOf ss (before ++ (advance B E program acceptor t ∷ after))
  Each-advance (s ∷ ss) [] t after (h, hs) =
      (λ fuel exit e. h (suc fuel) exit (exit_from-advance B E program acceptor fuel t e), hs)
  Each-advance (s ∷ ss) (b ∷ before) t after (h, hs) = (h, Each-advance ss before t after hs)
  Each-advance [] [] t after h = elim h [ ]
  Each-advance [] (b ∷ before) t after h = elim h [ ]

  turn-IsOf :
      (inc left : List (Incoming B.Socket N)) (ts : List (Thread B)) (w : Server B N)
      → IsOf inc (record { incoming = left; threads = ts })
      → turn_on left ts ≡ some w
      → IsOf inc w
  turn-IsOf inc [] ts w h e = cc
  turn-IsOf inc (connected s ∷ left) ts w (ss, q, h) e =
      subst (IsOf inc) (some_inj.0 e)
        (ss ++ (s ∷ []), q ∙ sym (append_assoc ss (s ∷ []) (sockets left)), Each-spawn ss ts s h)
  turn-IsOf inc (failed x ∷ left) ts w h e = subst (IsOf inc) (some_inj.0 e) h

  Step-IsOf :
      (inc : List (Incoming B.Socket N)) (v w : Server B N) → Step v w → IsOf inc v → IsOf inc w
  unfolding turn
  Step-IsOf inc v w (turns e) h = turn-IsOf inc v.incoming v.threads w h e
  Step-IsOf inc v w (runs before t after q live e) (ss, p, h) =
      subst (IsOf inc) (sym e)
        (ss, p, Each-advance ss before t after (subst (Each IsThreadOf ss) q h))

  Runs-IsOf :
      (inc : List (Incoming B.Socket N)) {w : Server B N} {n : ℕ}
      → Runs (start inc) w n
      → IsOf inc w
  Runs-IsOf inc here = ([], refl, tt)
  Runs-IsOf inc (next {u = u} {w = w} r st) = Step-IsOf inc u w st (Runs-IsOf inc r)

  -- How a thread has ended, if it has, is how its connection ends on its own.
  abbrev pub IsServed : B.Socket → Thread B → Type 0
  IsServed socket (ended exit) =
      (fuel : ℕ) × (connection B E program acceptor fuel socket ≡ some exit)
  IsServed socket _ = Unit

  IsThreadOf-IsServed : (s : B.Socket) (t : Thread B) → IsThreadOf s t → IsServed s t
  IsThreadOf-IsServed s (ended exit) h = h 0 exit refl
  IsThreadOf-IsServed s (accepting socket) h = tt
  IsThreadOf-IsServed s (reading stream) h = tt
  IsThreadOf-IsServed s (writing stream rest) h = tt

  Each-map :
      (ss : List B.Socket) (ts : List (Thread B)) → Each IsThreadOf ss ts → Each IsServed ss ts
  Each-map [] [] h = tt
  Each-map (s ∷ ss) (t ∷ ts) (h, hs) = (IsThreadOf-IsServed s t h, Each-map ss ts hs)
  Each-map [] (t ∷ ts) h = elim h [ ]
  Each-map (s ∷ ss) [] h = elim h [ ]

  -- At every moment of every run of a server, in any order of the calls of its threads: the threads
  -- are those of the first connections that did not fail, in order, and the loop still has the
  -- others. Each thread that has ended, a panic included, ended as its connection does on its own.
  pub Runs-IsServed :
      (inc : List (Incoming B.Socket N)) {w : Server B N} {n : ℕ}
      → Runs (start inc) w n
      → (accepted : List B.Socket) × (sockets inc ≡ accepted ++ sockets w.incoming)
        × Each IsServed accepted w.threads
  Runs-IsServed inc {w} r =
      let (accepted, q, h) = Runs-IsOf inc r in (accepted, q, Each-map accepted w.threads h)
