-- ===== src/Examples/Client/Prints.antt =====
-- What examples/google-connect.rs prints.
use rust_native_tls.Prelude.{
  subst, ◌+◌, ◌<◌, length, arith, ℕ, suc, ◌≡◌, refl, sym, ap, ◌∙◌, Option, none, some, some_inj,
  List, [], ◌++◌, Result, ok, err, panic, ok-injective,
}
use rust_native_tls.Api.Backend.{Backend}
use rust_native_tls.Examples.Std.{StreamErrors, write_all, read_to_end}
use rust_native_tls.Examples.Wire.{Wire, write_all-sent, read_to_end-ahead}
use rust_native_tls.Examples.Total.{
  NeverInterrupted, Ends, write_all-add, write_all_total, read_to_end_total,
}
use rust_native_tls.Api.Credentials
use rust_native_tls.Examples.Client.Panics.{HasPanicked, talk-HasPanicked}
use rust_native_tls.Examples.Client.{Std, request, printed, respond, talk, connected, main, line}

module _ (B : Backend) (N : Type 0) (E : StreamErrors B) (S : Std B N) (W : Wire B) where
  open B use {TlsStream, StreamError}

  -- The whole answer to the whole request.
  abbrev Answers : TlsStream → TlsStream → List ℕ → Type 0
  Answers s t text = (W.sent t ≡ W.sent s ++ request) × (text ≡ line B N E S (S.lossy (W.ahead t)))

  printed-ahead :
      (fuel : ℕ) (t : TlsStream) (text : List ℕ)
      (r : Option (TlsStream × Result StreamError (List ℕ)))
      → ((u : TlsStream) (bytes : List ℕ) → r ≡ some (u, ok bytes) → bytes ≡ W.ahead t)
      → printed B N E S r ≡ some (ok text)
      → text ≡ line B N E S (S.lossy (W.ahead t))
  printed-ahead fuel t text none f h = cc
  printed-ahead fuel t text (some (u, ok bytes)) f h =
      sym (ok-injective (some_inj.0 h)) ∙ ap (λ b. line B N E S (S.lossy b)) (f u bytes refl)
  printed-ahead fuel t text (some (u, err e)) f h = cc
  printed-ahead fuel t text (some (u, panic)) f h = cc

  respond-Answers :
      (fuel : ℕ) (s : TlsStream) (text : List ℕ)
      (r : Option (TlsStream × Result StreamError (Unit {0})))
      → ((t : TlsStream) → r ≡ some (t, ok tt) → W.sent t ≡ W.sent s ++ request)
      → respond B N E S fuel r ≡ some (ok text)
      → (t : TlsStream) × Answers s t text
  respond-Answers fuel s text none f h = cc
  respond-Answers fuel s text (some (t, ok done)) f h = (
    t,
    (
      f t refl,
      printed-ahead fuel t text (read_to_end B E (λ res. suc (S.room res)) fuel t [])
          (λ u bytes e. read_to_end-ahead B E W S.room fuel t u [] bytes e) h,
    ),
  )
  respond-Answers fuel s text (some (t, err e)) f h = cc
  respond-Answers fuel s text (some (t, panic)) f h = cc

  printed_err :
      (r : Option (TlsStream × Result StreamError (List ℕ))) {e : B.Error}
      → printed B N E S r ≡ some (err e)
      → ⊥
  printed_err none h = cc
  printed_err (some (s, ok res)) h = cc
  printed_err (some (s, err e)) h = cc
  printed_err (some (s, panic)) h = cc

  respond_err :
      (fuel : ℕ) (r : Option (TlsStream × Result StreamError (Unit {0}))) {e : B.Error}
      → respond B N E S fuel r ≡ some (err e)
      → ⊥
  respond_err fuel none h = cc
  respond_err fuel (some (s, ok done)) h =
      printed_err (read_to_end B E (λ res. suc (S.room res)) fuel s []) h
  respond_err fuel (some (s, err e)) h = cc
  respond_err fuel (some (s, panic)) h = cc

  -- `main` returns no error.
  talk_err :
      (fuel : ℕ) (c : Result B.Error TlsStream) {e : B.Error}
      → talk B N E S fuel c ≡ some (err e)
      → ⊥
  talk_err fuel (ok s) h = respond_err fuel (write_all B E fuel s request) h
  talk_err fuel (err e) h = cc
  talk_err fuel panic h = cc

  talk-Answers :
      (fuel : ℕ) (text : List ℕ) (r : Result B.Error TlsStream)
      → talk B N E S fuel r ≡ some (ok text)
      → (s : TlsStream) × (t : TlsStream) × (r ≡ ok s) × Answers s t text
  talk-Answers fuel text (ok s) h =
      let (t, a) =
        respond-Answers fuel s text (write_all B E fuel s request)
          (λ t e. write_all-sent B E W fuel s t request e) h in
      (s, t, refl, a)
  talk-Answers fuel text (err e) h = cc
  talk-Answers fuel text panic h = cc

  module _ (never : NeverInterrupted B E) where
    printed-Ends :
        (r : Option (TlsStream × Result StreamError (List ℕ)))
        → Ends B E never r
        → Ends B E never (printed B N E S r)
    printed-Ends none (r, h) = cc
    printed-Ends (some (s, ok res)) h = (_, refl)
    printed-Ends (some (s, err e)) h = (_, refl)
    printed-Ends (some (s, panic)) h = (_, refl)

    respond-Ends :
        (fuel : ℕ) (t : TlsStream) (r : Result StreamError (Unit {0}))
        → length (W.ahead t) < fuel
        → Ends B E never (respond B N E S fuel (some (t, r)))
    respond-Ends fuel t (ok done) h =
        printed-Ends (read_to_end B E (λ res. suc (S.room res)) fuel t [])
          (read_to_end_total B E never W S.room fuel t [] h)
    respond-Ends fuel t (err e) h = (_, refl)
    respond-Ends fuel t panic h = (_, refl)

    talk-Ends : (c : Result B.Error TlsStream) → (fuel : ℕ) × Ends B E never (talk B N E S fuel c)
    talk-Ends (ok s) =
        let ((t, r), e) = write_all_total B E never 18 s request (omega arith) in
        let k = suc (length (W.ahead t)) in
        (
          k + 18,
          subst (λ w. Ends B E never (respond B N E S (k + 18) w))
              (sym (write_all-add B E k 18 s request e)) (respond-Ends (k + 18) t r (omega arith)),
        )
    talk-Ends (err e) = (0, (_, refl))
    talk-Ends panic = (0, (_, refl))

    -- What is printed, or why the program panics.
    abbrev pub IsAnswered : ℕ → Result B.Error TlsStream → Result B.Error (List ℕ) → Type 0
    IsAnswered fuel c (ok text) =
        (s : TlsStream) × (t : TlsStream) × (c ≡ ok s)
        × (W.sent t ≡ W.sent s ++ request)
        × (text ≡ line B N E S (S.lossy (W.ahead t)))
    IsAnswered fuel c (err e) = ⊥
    IsAnswered fuel c panic = HasPanicked B N E S fuel c

    talk-IsAnswered :
        (fuel : ℕ) (c : Result B.Error TlsStream) (r : Result B.Error (List ℕ))
        → talk B N E S fuel c ≡ some r
        → IsAnswered fuel c r
    talk-IsAnswered fuel c (ok text) h =
        let (s, t, made, (asked, answered)) = talk-Answers fuel text c h in
        (s, t, made, asked, answered)
    talk-IsAnswered fuel c (err e) h = talk_err fuel c h
    talk-IsAnswered fuel c panic h = talk-HasPanicked B N E S fuel c h

    -- Over a stream whose reads and writes pass bytes as documented and are not interrupted:
    -- google-connect ends, with enough fuel, by a panic or with a text. Where it prints a text, the
    -- connection to google.com was made, it sent the whole request, and the text is all that the
    -- peer sent from then on, decoded, with a line's end. Where it panics,
    -- that connection was not made, or the call that sends the request or the one that reads the
    -- answer did not succeed.
    pub main-IsAnswered :
        (p : B.Process)
        → (fuel : ℕ) × (r : Result B.Error (List ℕ)) × ((main B N E S fuel p).1 ≡ some r)
          × IsAnswered fuel (connected B N E S (Credentials.connector_new B p).1) r
    unfolding main
    main-IsAnswered p =
        let c = connected B N E S (Credentials.connector_new B p).1 in
        let (fuel, (r, h)) = talk-Ends c in (fuel, r, h, talk-IsAnswered fuel c r h)
