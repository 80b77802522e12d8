-- ===== src/Examples/Tests.antt =====
-- The theorems on the examples at concrete inputs.
pub mod Toy
use rust_native_tls.Prelude.{
  Result, ℕ, suc, ◌≡◌, ◌≤◌, ◌*◌, refl, none, some, List, [], ◌∷◌, ◌++◌, true, false, Bool, codes,
  length, ok, err, arith, is_utf8, All, subst, ap, sym, ◌∙◌,
}
use rust_native_tls.Api.Credentials
use rust_native_tls.Api.Streams
use rust_native_tls.Api.Connections
use rust_native_tls.Api.Errors
use rust_native_tls.Examples.Std.{write_all, after_write, read_to_end, after_read}
use rust_native_tls.Examples.Client as Client
use rust_native_tls.Examples.Client.{Std, main, line, request}
use rust_native_tls.Examples.Client.Prints as Prints
use rust_native_tls.Examples.Client.Prints.{main-IsAnswered}
use rust_native_tls.Examples.Server.{
  Program, simple_server, simple_server_pkcs8, Exit, finished, panicked, connection, handle_client,
  reply, reply_to,
}
use rust_native_tls.Examples.Server.Threads.{Thread, ended, accepting, advance}
use rust_native_tls.Examples.Server.Schedule.{
  Server, Incoming, connected, failed, turn, Step, turns, runs, Runs, here, next, start, sockets,
  Each, IsServed, is_live, Runs-IsServed,
}
use rust_native_tls.Examples.Server.Bounds.{Runs-bounded, connection_total}
use rust_native_tls.Examples.Server.AllServed.{IsStuck, HasServed}
use rust_native_tls.Builder.Acceptor.{acceptor_builder}
use rust_native_tls.Examples.Setup as Setup
use rust_native_tls.Examples.Setup.{System, identity}
use rust_native_tls.Examples.Setup.Serves.{main-Serves}
use rust_native_tls.Examples.Server.Answered.{IsAnswered, connection-IsAnswered}
use rust_native_tls.Examples.Tests.Toy.{Line, backend, errors, wire, steady, never}

-- The server at peer 1 answers.
connection-IsAnswered_example :
    (exit : Exit backend) × (connection backend errors simple_server_pkcs8 7 1038 1 ≡ some exit)
    × IsAnswered backend errors wire steady 7 1 exit
connection-IsAnswered_example = connection-IsAnswered backend errors wire steady 7 1

-- It does, in 13 calls of `write`.
connection_run :
    connection backend errors simple_server_pkcs8 7 13 1
    ≡ some (finished (record { sent = codes "received 'hi'"; ahead = [] }))
unfolding connection handle_client write_all after_write reply is_utf8 Streams.read Streams.write
    Connections.accept Connections.handshaken
connection_run = refl

-- A connection that fails its handshake, one that the listener fails to accept, and a good one.
abbrev incoming : List (Incoming ℕ ℕ)
incoming = connected 0 ∷ failed 5 ∷ connected 1 ∷ []

abbrev greeted : Line
greeted = record { sent = []; ahead = codes "hi" }

abbrev at_end : Server backend ℕ
at_end = record { incoming = []; threads = ended panicked ∷ ended (finished greeted) ∷ [] }

abbrev half : Server backend ℕ
half = record { incoming = failed 5 ∷ connected 1 ∷ []; threads = ended panicked ∷ [] }

abbrev simple_start : Server backend ℕ
simple_start = start backend ℕ errors simple_server 7 incoming

-- The first thread runs before the loop goes on.
half_run : Runs backend ℕ errors simple_server 7 simple_start half 2
unfolding turn advance Connections.accept Connections.handshaken
half_run = next (next here (turns refl)) (runs [] (accepting 0) [] refl refl refl)

end_run : Runs backend ℕ errors simple_server 7 simple_start at_end 5
unfolding turn advance Connections.accept Connections.handshaken
end_run =
    next (next (next half_run (turns refl)) (turns refl))
      (runs (ended panicked ∷ []) (accepting 1) [] refl refl refl)

not_live :
    (before : List (Thread backend)) (t : Thread backend) (after : List (Thread backend))
    → All (λ u. is_live u ≡ false) (before ++ (t ∷ after))
    → is_live t ≡ false
not_live [] t after (h, hs) = h
not_live (b ∷ before) t after (h, hs) = not_live before t after hs

at_end-IsStuck : IsStuck backend ℕ errors simple_server 7 at_end
unfolding turn
at_end-IsStuck u (turns e) = cc
at_end-IsStuck u (runs before t after q live e) =
    let over =
      not_live before t after (subst (All (λ t. is_live t ≡ false)) q (refl, (refl, tt))) in
    cc

Runs-IsServed_example :
    (accepted : List ℕ) × (0 ∷ 1 ∷ [] ≡ accepted ++ (1 ∷ []))
    × Each backend ℕ errors simple_server 7
        (IsServed backend ℕ errors simple_server 7)
        accepted
        (ended panicked ∷ [])
Runs-IsServed_example = Runs-IsServed backend ℕ errors simple_server 7 incoming half_run

Runs-bounded_example : 5 ≤ 1039 * 3
Runs-bounded_example = Runs-bounded backend ℕ errors simple_server 7 steady incoming end_run

-- Every file is empty, and the listener yields the connections above.
abbrev system : System backend ℕ
system = record { read_file = λ path. ok []; bind = λ address. ok incoming }

main-Serves_example :
    (own : ℕ) × (q : ℕ) × (inc : List (Incoming ℕ ℕ)) × (identity backend ℕ system simple_server 0
      ≡ (q, ok own))
    × (Connections.acceptor_new backend own ≡ ok 7)
    × (system.bind (codes "0.0.0.0:8443") ≡ ok inc)
    × Each backend ℕ errors simple_server 7
        (HasServed backend ℕ errors simple_server 7)
        (sockets backend ℕ errors simple_server 7 inc)
        at_end.threads
unfolding Setup.main identity Credentials.from_pkcs12 Connections.acceptor_new
    Connections.acceptor_build acceptor_builder
main-Serves_example =
    main-Serves backend ℕ errors system simple_server 0 {p' = 0} {acceptor = 7} {v = simple_start}
      refl end_run at_end-IsStuck

abbrev std : Std backend ℕ
std = record { dial = λ address. ok 1; lossy = λ bytes. bytes; room = λ res. 31 }

main-IsAnswered_example :
    (fuel : ℕ) × (r : Result ℕ (List ℕ)) × ((Client.main backend ℕ errors std fuel 0).1 ≡ some r)
    × Prints.IsAnswered backend ℕ errors std wire never fuel
        (Client.connected backend ℕ errors std (Credentials.connector_new backend 0).1)
        r
main-IsAnswered_example = main-IsAnswered backend ℕ errors std wire never 0

-- The client prints the answer of peer 1.
main_run : (Client.main backend ℕ errors std 18 0).1 ≡ some (ok (codes "hi\n"))
unfolding Client.main Client.connected write_all after_write read_to_end after_read Streams.read
    Streams.write Connections.connect Credentials.connector_new Credentials.connector_build
main_run = refl
