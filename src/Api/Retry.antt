-- ===== src/Api/Retry.antt =====
-- Clients of src/lib.rs that call `MidHandshakeTlsStream::handshake` for as long as a handshake is
-- interrupted.
use rust_native_tls.Prelude.{
  ℕ, zero, suc, ◌≤◌, ◌≡◌, ◌↔◌, refl, ap, sym, subst, ◌∙◌, List, Result, ok, err, panic, arith,
  ok-injective,
}
use rust_native_tls.Api.Backend.{Backend, failure, would_block}
use rust_native_tls.Api.Errors.{Interruption, from_imp, from_imp_lem}
use rust_native_tls.Api.Connections.{
  connect-handshaken, Handshaken, handshaken, handshake, connect, accept,
}

module _ (B : Backend) where
  -- After `n` resumptions of the backend's handshake, the stream.
  pub data Completes : Result B.ImpHandshakeError B.TlsStream → ℕ → B.TlsStream → Type 0 where
    done : {s : B.TlsStream} → Completes (ok s) 0 s
    again :
        {e : B.ImpHandshakeError} {n : ℕ} {s : B.TlsStream} (mid : B.MidHandshakeTlsStream)
        → B.variant e ≡ would_block mid
        → Completes (B.handshake mid) n s
        → Completes (err e) (suc n) s

  -- A client that resumes an interrupted handshake so many times.
  unfoldable pub retry : ℕ → Handshaken B → Handshaken B
  retry zero r = r
  retry (suc n) (ok s) = ok s
  retry (suc n) (err (failure e)) = err (failure e)
  retry (suc n) (err (would_block mid)) = retry n (handshake B mid)
  retry (suc n) panic = panic

  abbrev Within : ℕ → Result B.ImpHandshakeError B.TlsStream → B.TlsStream → Type 0
  Within n r s = (m : ℕ) × (m ≤ n) × Completes r m s

  retry-ok : (n : ℕ) (s : B.TlsStream) → retry n (ok s) ≡ ok s
  unfolding retry
  retry-ok zero s = refl
  retry-ok (suc n) s = refl

  Completes-ok : {s t : B.TlsStream} {n : ℕ} → Completes (ok s) n t → s ≡ t
  Completes-ok done = refl

  Completes-err :
      {e : B.ImpHandshakeError} {n : ℕ} {s : B.TlsStream}
      → Completes (err e) n s
      → (mid : B.MidHandshakeTlsStream) × (m : ℕ) × (B.variant e ≡ would_block mid)
        × (n ≡ suc m)
        × Completes (B.handshake mid) m s
  Completes-err (again {n = m} mid same rest) = (mid, m, same, refl, rest)

  Completes-panic : {n : ℕ} {s : B.TlsStream} → Completes panic n s → ⊥
  Completes-panic c = elim c [ ]

  ok-Within : (n : ℕ) (s t : B.TlsStream) → (retry n (ok s) ≡ ok t) ↔ Within n (ok s) t
  ok-Within n s t = (
    λ h. (
      0,
      omega arith,
      subst (λ u. Completes (ok s) 0 u) (ok-injective (sym (retry-ok n s) ∙ h)) done,
    ),
    λ (m, le, c). retry-ok n s ∙ ap ok (Completes-ok c),
  )

  panic-Within : (n : ℕ) (t : B.TlsStream) → (retry n panic ≡ ok t) ↔ Within n panic t
  unfolding retry
  panic-Within zero t = (λ h. cc h, λ (m, le, c). absurd (Completes-panic c))
  panic-Within (suc n) t = (λ h. cc h, λ (m, le, c). absurd (Completes-panic c))

  err-Within :
      (e : B.ImpHandshakeError) (t : B.TlsStream)
      → (retry 0 (err (from_imp B e)) ≡ ok t) ↔ Within 0 (err e) t
  unfolding retry
  err-Within e t = (
    λ h. cc h,
    λ (m, le, c).
        let (mid, k, same, next, rest) = Completes-err c in absurd (omega (arith, le, next)),
  )

  -- The variant of an error decides what the client does next.
  resumed :
      (n : ℕ) (e : B.ImpHandshakeError) (v : Interruption B) (s : B.TlsStream)
      → B.variant e ≡ v
      → ((mid : B.MidHandshakeTlsStream)
          → (retry n (handshake B mid) ≡ ok s) ↔ Within n (B.handshake mid) s)
      → (retry (suc n) (err v) ≡ ok s) ↔ Within (suc n) (err e) s
  unfolding retry
  resumed n e (failure x) s same next = (
    λ h. cc h,
    λ (m, le, c). let (mid, k, other, size, rest) = Completes-err c in absurd (cc (same, other)),
  )
  resumed n e (would_block mid) s same next = (
    λ h. let (m, le, c) = (next mid).0 h in (suc m, omega (arith, le), again mid same c),
    λ (m, le, c).
        let (mid', k, other, size, rest) = Completes-err c in
        let here : mid' ≡ mid = cc (same, other) in
        (next mid).1
          (k, omega (arith, le, size), subst (λ x. Completes (B.handshake x) k s) here rest),
  )

  retry-Within :
      (n : ℕ) (r : Result B.ImpHandshakeError B.TlsStream) (s : B.TlsStream)
      → (retry n (handshaken B r) ≡ ok s) ↔ Within n r s
  unfolding handshaken handshake
  retry-Within n (ok s') s = ok-Within n s' s
  retry-Within n panic s = panic-Within n s
  retry-Within zero (err e) s = err-Within e s
  retry-Within (suc n) (err e) s =
      rw (from_imp_lem B e)
        (resumed n e (B.variant e) s refl (λ mid. retry-Within n (B.handshake mid) s))

  -- A client that connects or accepts and then resumes the handshake up to `n` times has the stream
  -- exactly when the handshake of the backend gives it after at most `n` resumptions: no attempt is
  -- lost, and a handshake that the backend completes is completed.
  pub retry-Completes :
      (c : B.TlsConnector) (a : B.TlsAcceptor) (domain : List ℕ) (socket : B.Socket) (n : ℕ)
      (s : B.TlsStream)
      → ((retry n (connect B c domain socket) ≡ ok s)
          ↔ ((m : ℕ) × (m ≤ n) × Completes (B.connect c domain socket) m s))
        × ((retry n (accept B a socket) ≡ ok s)
            ↔ ((m : ℕ) × (m ≤ n) × Completes (B.accept a socket) m s))
  unfolding connect accept
  retry-Completes c a domain socket n s = (
    rw (connect-handshaken B (B.connect c domain socket))
        (retry-Within n (B.connect c domain socket) s),
    retry-Within n (B.accept a socket) s,
  )
