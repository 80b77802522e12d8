-- ===== src/Examples/Setup/Serves.antt =====
-- The example servers from their start to where no step is left.
use rust_native_tls.Prelude.{ℕ, ◌≡◌, refl, subst, Result, ok, err, panic, List, [], codes}
use rust_native_tls.Prelude.State.{continue-eq-ok, ◌>>=◌, lift, pure}
use rust_native_tls.Api.Backend.{Backend}
use rust_native_tls.Api.Connections
use rust_native_tls.Examples.Std.{StreamErrors, unwrap}
use rust_native_tls.Examples.Server.{Program}
use rust_native_tls.Examples.Server.Schedule.{Server, Incoming, Runs, sockets, Each, start}
use rust_native_tls.Examples.Server.AllServed.{IsStuck, HasServed, Runs-all_served}
use rust_native_tls.Examples.Setup.{System, identity, main}

module _ (B : Backend) (N : Type 0) (E : StreamErrors B) (S : System B N) (program : Program) where
  abbrev served_from : B.TlsAcceptor → List (Incoming B.Socket N) → B.TlsAcceptor × Server B N
  served_from acceptor incoming = (acceptor, record { incoming = incoming; threads = [] })

  loop_from :
      (q : B.Process) (made : Result B.Error B.TlsAcceptor)
      (bound : Result N (List (Incoming B.Socket N))) {p' : B.Process} {acceptor : B.TlsAcceptor}
      {v : Server B N}
      → (lift {E = B.Error} (unwrap made) >>= λ a.
            lift {E = B.Error} (unwrap bound) >>= λ incoming. pure (served_from a incoming))
          q
        ≡ (p', ok (acceptor, v))
      → (incoming : List (Incoming B.Socket N)) × (made ≡ ok acceptor)
        × (bound ≡ ok incoming)
        × (v ≡ start B N E program acceptor incoming)
  loop_from q (ok a) (ok incoming) h = (incoming, cc, refl, cc)
  loop_from q (ok a) (err e) h = cc
  loop_from q (ok a) panic h = cc
  loop_from q (err e) bound h = cc
  loop_from q panic bound h = cc

  -- Where `main` comes to its loop.
  pub main-begins :
      (p : B.Process) {p' : B.Process} {acceptor : B.TlsAcceptor} {v : Server B N}
      → main B N S program p ≡ (p', ok (acceptor, v))
      → (own : B.Identity) × (q : B.Process) × (incoming : List (Incoming B.Socket N)) × (identity B
            N S program p
          ≡ (q, ok own))
        × (Connections.acceptor_new B own ≡ ok acceptor)
        × (S.bind (codes "0.0.0.0:8443") ≡ ok incoming)
        × (v ≡ start B N E program acceptor incoming)
  unfolding main
  main-begins p h =
      let (q, own, first, rest) = continue-eq-ok (identity B N S program p) _ h in
      let (incoming, made, bound, begun) =
        loop_from q (Connections.acceptor_new B own) (S.bind (codes "0.0.0.0:8443")) rest in
      (own, q, incoming, first, made, bound, begun)

  -- Where `main` of an example server comes to its loop and the run of the loop and its threads to
  -- where no step is left: the acceptor is that of the identity from the program's files, the
  -- listener was bound, and each connection that did not fail has a thread, in order, that has
  -- ended as the connection does on its own. A failed handshake or a panic of one thread keeps no
  -- other connection from being served.
  pub main-Serves :
      (p : B.Process) {p' : B.Process} {acceptor : B.TlsAcceptor} {v w : Server B N} {n : ℕ}
      → main B N S program p ≡ (p', ok (acceptor, v))
      → Runs B N E program acceptor v w n
      → IsStuck B N E program acceptor w
      → (own : B.Identity) × (q : B.Process) × (incoming : List (Incoming B.Socket N)) × (identity B
            N S program p
          ≡ (q, ok own))
        × (Connections.acceptor_new B own ≡ ok acceptor)
        × (S.bind (codes "0.0.0.0:8443") ≡ ok incoming)
        × Each B N E program acceptor
            (HasServed B N E program acceptor)
            (sockets B N E program acceptor incoming)
            w.threads
  main-Serves p {acceptor = a} {w = w} {n = n} h r stuck =
      let (own, q, incoming, first, made, bound, begun) = main-begins p h in
      (
        own,
        q,
        incoming,
        first,
        made,
        bound,
        Runs-all_served B N E program a incoming (subst (λ u. Runs B N E program a u w n) begun r)
            stuck,
      )
