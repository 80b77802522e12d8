-- ===== src/SecurityFramework/Stream/Alpn.antt =====
-- When `negotiated_alpn` of src/imp/security_framework.rs reports a protocol, and when none.
use rust_native_tls.Prelude.{ℕ, ◌≡◌, refl, ◌↔◌, none, some, List, [], ◌∷◌, ok, err, panic, arith}
use rust_native_tls.SecurityFramework.Library.{Library}
use rust_native_tls.SecurityFramework.Connector.{TlsStream}
use rust_native_tls.SecurityFramework.Stream.{Fallible, first_of, alpn_of, negotiated_alpn}

module _ (L : Library) where
  -- The library knows of no negotiated protocol.
  abbrev IsUnnegotiated : Fallible L (List (List ℕ)) → Type 0
  IsUnnegotiated (ok protocols) = protocols ≡ []
  IsUnnegotiated (err e) = L.code e ≡ L.err_sec_param
  IsUnnegotiated panic = ⊥

  alpn_of-eq-none : (r : Fallible L (List (List ℕ))) → (alpn_of L r ≡ ok none) ↔ IsUnnegotiated r
  unfolding alpn_of first_of
  alpn_of-eq-none (ok []) = (λ h. refl, λ h. refl)
  alpn_of-eq-none (ok (p ∷ [])) = (λ h. cc, λ h. cc)
  alpn_of-eq-none (ok (p ∷ q ∷ rest)) = (λ h. ground arith, λ h. cc)
  alpn_of-eq-none (err e) = (λ h. ground arith, λ h. ground arith)
  alpn_of-eq-none panic = (λ h. cc, λ h. elim h [ ])

  alpn_of-eq-some :
      (r : Fallible L (List (List ℕ))) (name : List ℕ)
      → (alpn_of L r ≡ ok (some name)) ↔ (r ≡ ok (name ∷ []))
  unfolding alpn_of first_of
  alpn_of-eq-some (ok []) name = (λ h. cc, λ h. cc)
  alpn_of-eq-some (ok (p ∷ [])) name = (λ h. cc, λ h. cc)
  alpn_of-eq-some (ok (p ∷ q ∷ rest)) name = (λ h. ground arith, λ h. cc)
  alpn_of-eq-some (err e) name = (λ h. ground arith, λ h. cc)
  alpn_of-eq-some panic name = (λ h. cc, λ h. cc)

  -- A protocol is reported exactly when the library gives a list of that one protocol, and none is
  -- reported exactly when it gives an empty list or fails with `errSecParam`.
  negotiated_alpn_lem :
      (s : TlsStream L)
      → ((name : List ℕ)
          → (negotiated_alpn L s ≡ ok (some name))
            ↔ (L.alpn_protocols_of s.stream ≡ ok (name ∷ [])))
        × ((negotiated_alpn L s ≡ ok none) ↔ IsUnnegotiated (L.alpn_protocols_of s.stream))
  unfolding negotiated_alpn
  negotiated_alpn_lem s = (
    alpn_of-eq-some (L.alpn_protocols_of s.stream),
    alpn_of-eq-none (L.alpn_protocols_of s.stream),
  )
