-- ===== src/Examples/Client/Panics.antt =====
-- Why examples/google-connect.rs panics.
use rust_native_tls.Prelude.{
  ℕ, suc, ◌≡◌, refl, false, inl, inr, ◌⊎◌, Option, none, some, List, [], Result, ok, err, panic,
  is_ok,
}
use rust_native_tls.Api.Backend.{Backend}
use rust_native_tls.Examples.Std.{StreamErrors, write_all, read_to_end}
use rust_native_tls.Examples.Client.{Std, request, printed, respond, talk}

module _ (B : Backend) (N : Type 0) (E : StreamErrors B) (S : Std B N) where
  open B use {TlsStream, StreamError}

  -- The loop returned, and not `Ok`.
  abbrev pub HasFailed : {A : Type 0} → Option (TlsStream × Result StreamError A) → Type 0
  HasFailed {A} o =
      (t : TlsStream) × (failure : Result StreamError A) × (o ≡ some (t, failure))
      × (is_ok failure ≡ false)

  -- The request was sent, and the answer to it was not read in whole.
  abbrev pub IsUnread : ℕ → TlsStream → Type 0
  IsUnread fuel s =
      (t : TlsStream) × (write_all B E fuel s request ≡ some (t, ok tt))
      × HasFailed (read_to_end B E (λ res. suc (S.room res)) fuel t [])

  -- There is no connection, or the exchange over it failed.
  abbrev pub HasPanicked : ℕ → Result B.Error TlsStream → Type 0
  HasPanicked fuel c =
      (is_ok c ≡ false)
      ⊎ ((s : TlsStream) × (c ≡ ok s)
          × (HasFailed (write_all B E fuel s request) ⊎ IsUnread fuel s))

  printed-HasFailed :
      (r : Option (TlsStream × Result StreamError (List ℕ)))
      → printed B N E S r ≡ some panic
      → HasFailed r
  printed-HasFailed none h = cc
  printed-HasFailed (some (s, ok res)) h = cc
  printed-HasFailed (some (s, err e)) h = (s, err e, refl, refl)
  printed-HasFailed (some (s, panic)) h = (s, panic, refl, refl)

  respond-HasFailed :
      (fuel : ℕ) (r : Option (TlsStream × Result StreamError (Unit {0})))
      → respond B N E S fuel r ≡ some panic
      → HasFailed r
        ⊎ ((t : TlsStream) × (r ≡ some (t, ok tt))
            × HasFailed (read_to_end B E (λ res. suc (S.room res)) fuel t []))
  respond-HasFailed fuel none h = cc
  respond-HasFailed fuel (some (s, ok done)) h =
      inr (s, refl, printed-HasFailed (read_to_end B E (λ res. suc (S.room res)) fuel s []) h)
  respond-HasFailed fuel (some (s, err e)) h = inl (s, err e, refl, refl)
  respond-HasFailed fuel (some (s, panic)) h = inl (s, panic, refl, refl)

  pub talk-HasPanicked :
      (fuel : ℕ) (c : Result B.Error TlsStream)
      → talk B N E S fuel c ≡ some panic
      → HasPanicked fuel c
  talk-HasPanicked fuel (ok s) h =
      inr (s, refl, respond-HasFailed fuel (write_all B E fuel s request) h)
  talk-HasPanicked fuel (err e) h = inl refl
  talk-HasPanicked fuel panic h = inl refl
