-- ===== src/Schannel/Protocols.antt =====
-- `PROTOCOLS` and `convert_protocols` of src/imp/schannel.rs. The versions of the `schannel` crate
-- are parameters.
use rust_native_tls.Prelude.{
  ℕ, suc, ◌+◌, ◌<◌, ◌≡◌, refl, Bool, Option, none, some, List, [], ◌∷◌, arith, leb, ltb, length,
  take, drop, if◌then◌else◌,
}
use rust_native_tls.Protocol.{
  Protocol, sslv3, tlsv10, tlsv11, tlsv12, as_usize, in_range, IsBound, IsVersion, IsOrdered,
}

-- `slice.get(..=k)`
get_to_inclusive : {A : Type 0} → List A → ℕ → Option (List A)
get_to_inclusive xs k = if ltb k (length xs) then some (take (suc k) xs) else none

-- `slice.get(k..)`
get_from : {A : Type 0} → List A → ℕ → Option (List A)
get_from xs k = if leb k (length xs) then some (drop k xs) else none

-- The four constants of `schannel::schannel_cred::Protocol` that the crate names.
module _ {P : Type 0} (ssl3 tls10 tls11 tls12 : P) where
  abbrev pub protocols : List P
  protocols = ssl3 ∷ tls10 ∷ tls11 ∷ tls12 ∷ []

  -- `if let Some(p) = max.and_then(|max| protocols.get(..=max as usize)) { protocols = p; }`
  cut_max : Option Protocol → List P → List P
  unfolding get_to_inclusive
  cut_max none ps = ps
  cut_max (some max) ps = elim (get_to_inclusive ps (as_usize max)) [ none ↦ ps | some p ↦ p ]

  cut_min : Option Protocol → List P → List P
  unfolding get_from
  cut_min none ps = ps
  cut_min (some min) ps = elim (get_from ps (as_usize min)) [ none ↦ ps | some p ↦ p ]

  unfoldable pub convert_protocols : Option Protocol → Option Protocol → List P
  unfolding cut_max cut_min
  convert_protocols min max = cut_min min (cut_max max protocols)

  abbrev keep : Bool → P → List P → List P
  keep b p rest = if b then p ∷ rest else rest

  -- The crate's versions that a test accepts, in ascending order.
  abbrev pub accepted : (Protocol → Bool) → List P
  accepted test =
      keep (test sslv3) ssl3
        (keep (test tlsv10) tls10 (keep (test tlsv11) tls11 (keep (test tlsv12) tls12 [])))

  -- For bounds that are absent or real versions, with the minimum at most one version above the
  -- maximum, the enabled protocols are those in range, each once and in ascending order.
  pub convert_protocols-in_range :
      (min max : Option Protocol)
      → IsBound min
      → IsBound max
      → IsOrdered min max
      → convert_protocols min max ≡ accepted (in_range min max)
  unfolding convert_protocols
  convert_protocols-in_range none none bmin bmax o = refl
  convert_protocols-in_range none (some max) bmin bmax o = ground arith
  convert_protocols-in_range (some min) none bmin bmax o = ground arith
  convert_protocols-in_range (some min) (some max) bmin bmax o = ground arith

  -- Where the minimum is a real version two or more above the maximum, the minimum is ignored: all
  -- versions up to the maximum are enabled, though the range is empty.
  pub convert_protocols_inverted :
      (min max : Protocol)
      → IsVersion min
      → as_usize max + 1 < as_usize min
      → (convert_protocols (some min) (some max) ≡ accepted (in_range none (some max)))
        × (accepted (in_range (some min) (some max)) ≡ [])
  unfolding convert_protocols
  convert_protocols_inverted min max v h = ground arith
