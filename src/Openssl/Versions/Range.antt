-- ===== src/Openssl/Versions/Range.antt =====
-- What the two versions of `supported_protocols` of src/imp/openssl.rs enable.
use mathlib.Core.Option
use rust_native_tls.Prelude.{
  ◌≡◌, refl, Bool, true, false, not, Option, none, some, ℕ, ◌+◌, leb, ltb, ◌&&◌, ◌||◌, ok, arith,
  ◌∙◌, sym, ap, >>=-eq-ok, ok-injective,
}
use rust_native_tls.Protocol.{
  Protocol, sslv3, non_exhaustive, in_range, as_usize, IsBound, IsVersion,
}
use rust_native_tls.Openssl.Library.{Crypto, Context}
use rust_native_tls.Openssl.View.{
  Flag, flag_sslv2, flag_sslv3, flag_tlsv1, flag_tlsv1_1, flag_tlsv1_2, flag_of, OptionLaws,
  ContextLaws, VersionLaws,
}
use rust_native_tls.Openssl.Versions.{
  map_cvt, supported_protocols, supported_protocols_min_max, supported_protocols_options,
  min_options, max_options,
}

and_same : (a b c : Bool) → ((a && b) && (c && b)) ≡ ((c && a) && (c && b))
and_same true true true = refl
and_same true true false = refl
and_same true false true = refl
and_same true false false = refl
and_same false b true = refl
and_same false b false = refl

module _ (C : Crypto) (X : Context C) where
  open X use {
    SslContextBuilder, SslVersion, SslOptions, options_empty, options_union, no_sslv2, no_sslv3,
    no_tlsv1, no_tlsv1_1, no_tlsv1_2,
  }

  infixl 60 ◌∪◌
  abbrev ◌∪◌ : SslOptions → SslOptions → SslOptions
  a ∪ b = options_union a b

  abbrev mask : SslOptions
  mask = no_sslv2 ∪ no_sslv3 ∪ no_tlsv1 ∪ no_tlsv1_1 ∪ no_tlsv1_2

  module _ (O : OptionLaws C X) where
    -- The versions, with SSL 2.0 in front, as numbers.
    abbrev rank : Flag → ℕ
    rank flag_sslv2 = 0
    rank flag_sslv3 = 1
    rank flag_tlsv1 = 2
    rank flag_tlsv1_1 = 3
    rank flag_tlsv1_2 = 4

    abbrev is_below : Option Protocol → Flag → Bool
    is_below none f = false
    is_below (some min) f = leb (rank f) (as_usize min)

    abbrev is_above : Option Protocol → Flag → Bool
    is_above none f = false
    is_above (some max) f = ltb (as_usize max + 1) (rank f)

    -- The range, by the flags.
    in_range-flags :
        (min max : Option Protocol) (v : Protocol) (before : Bool)
        → IsVersion v
        → not (before && false || (is_below min (flag_of v) || is_above max (flag_of v)))
          ≡ in_range min max v
    in_range-flags min max non_exhaustive before r = elim r [ ]
    in_range-flags min max v before r = ground arith

    has-min_options :
        (min : Option Protocol) (o : SslOptions) (f : Flag)
        → min_options C X min ≡ ok o
        → O.has o f ≡ is_below min f
    unfolding min_options
    has-min_options (some non_exhaustive) o f h = cc
    has-min_options min o f h = grind (
      arith, O.has-empty, O.has-union, O.has-no_sslv2, O.has-no_sslv3, O.has-no_tlsv1,
      O.has-no_tlsv1_1,
    )

    has-max_options :
        (max : Option Protocol) (o : SslOptions) (f : Flag)
        → max_options C X max ≡ ok o
        → O.has o f ≡ is_above max f
    unfolding max_options
    has-max_options (some non_exhaustive) o f h = cc
    has-max_options max o f h =
        grind (arith, O.has-empty, O.has-no_tlsv1_2, O.has-no_tlsv1, O.has-no_tlsv1_1, O.has-union)

    min_options_total :
        (min : Option Protocol) → IsBound min → (o : SslOptions) × (min_options C X min ≡ ok o)
    unfolding min_options
    min_options_total (some non_exhaustive) b = elim b [ ]
    min_options_total none b = (_, refl)
    min_options_total (some sslv3) b = (_, refl)
    min_options_total _ b = (_, refl)

    max_options_total :
        (max : Option Protocol) → IsBound max → (o : SslOptions) × (max_options C X max ≡ ok o)
    unfolding max_options
    max_options_total (some non_exhaustive) b = elim b [ ]
    max_options_total none b = (_, refl)
    max_options_total (some sslv3) b = (_, refl)
    max_options_total _ b = (_, refl)

    has-mask : (f : Flag) → O.has mask f ≡ true
    has-mask f = grind (
      arith, O.has-union, O.has-no_sslv2, O.has-no_sslv3, O.has-no_tlsv1, O.has-no_tlsv1_1,
      O.has-no_tlsv1_2,
    )

    -- A call that succeeds was given real versions.
    bounds_of_ok :
        (min max : Option Protocol) (ctx : SslContextBuilder) {ctx' : SslContextBuilder}
        → supported_protocols_options C X min max ctx ≡ ok ctx'
        → IsBound min × IsBound max
    unfolding supported_protocols_options min_options max_options
    bounds_of_ok min max ctx h = ground arith

    module _ (L : ContextLaws C X O) where
      unfoldable pub enabled : SslContextBuilder → Protocol → Bool
      enabled ctx v = not ((L.config ctx).disabled (flag_of v))

      -- Without `have_min_max_version` and with bounds that are absent or real versions the call
      -- succeeds, and what its options leave enabled is the range, whatever was enabled before.
      pub supported_protocols_options-in_range :
          (min max : Option Protocol) (ctx : SslContextBuilder)
          → IsBound min
          → IsBound max
          → (ctx' : SslContextBuilder) × (supported_protocols_options C X min max ctx ≡ ok ctx')
            × ((v : Protocol) → IsVersion v → enabled ctx' v ≡ in_range min max v)
      unfolding supported_protocols_options enabled
      supported_protocols_options-in_range min max ctx a b =
          let (low, l) = min_options_total min a in
          let (high, h) = max_options_total max b in
          (
            X.set_options (X.clear_options ctx mask) (options_empty ∪ low ∪ high),
            rw (l, h),
            λ v r.
                simp
                  (
                    L.set_options_lem,
                    L.clear_options_lem,
                    has-mask,
                    O.has-union,
                    O.has-empty,
                    has-min_options min low (flag_of v) l,
                    has-max_options max high (flag_of v) h,
                  )
                  (in_range-flags min max v ((L.config ctx).disabled (flag_of v)) r),
          )

      module _ (V : VersionLaws C X) where
        -- The library's reading of a context's two bounds.
        unfoldable pub enabled_by_bounds : SslContextBuilder → Protocol → Bool
        enabled_by_bounds ctx =
            in_range (Option.map V.decode (L.config ctx).min_proto)
              (Option.map V.decode (L.config ctx).max_proto)

        decode-map_cvt :
            (p : Option Protocol) (v : Option SslVersion)
            → map_cvt C X p ≡ ok v
            → Option.map V.decode v ≡ p
        unfolding map_cvt
        decode-map_cvt none v h = ground arith
        decode-map_cvt (some non_exhaustive) v h = cc
        decode-map_cvt (some p) v h = ground arith

        -- With `have_min_max_version` a call that succeeds leaves the bounds that were asked for.
        pub supported_protocols_min_max-in_range :
            (min max : Option Protocol) (ctx : SslContextBuilder) {ctx' : SslContextBuilder}
            → supported_protocols_min_max C X min max ctx ≡ ok ctx'
            → (v : Protocol) → enabled_by_bounds ctx' v ≡ in_range min max v
        unfolding supported_protocols_min_max enabled_by_bounds
        supported_protocols_min_max-in_range min max ctx h v =
            let (low, l, h₁) = >>=-eq-ok (map_cvt C X min) _ h in
            let (ctx₁, set_low, h₂) = >>=-eq-ok (X.set_min_proto_version ctx low) _ h₁ in
            let (high, u, set_high) = >>=-eq-ok (map_cvt C X max) _ h₂ in
            rw (
              L.set_max_proto_version_lem ctx₁ high set_high,
              L.set_min_proto_version_lem ctx low set_low,
              decode-map_cvt min low l,
              decode-map_cvt max high u,
            )

        -- A context offers a version that is between its bounds and that no option turns off.
        unfoldable pub offered : SslContextBuilder → Protocol → Bool
        offered ctx v = enabled_by_bounds ctx v && enabled ctx v

        min_max-enabled :
            (min max : Option Protocol) (ctx : SslContextBuilder) {ctx' : SslContextBuilder}
            → supported_protocols_min_max C X min max ctx ≡ ok ctx'
            → (v : Protocol) → enabled ctx' v ≡ enabled ctx v
        unfolding supported_protocols_min_max enabled
        min_max-enabled min max ctx h v =
            let (low, l, h₁) = >>=-eq-ok (map_cvt C X min) _ h in
            let (ctx₁, set_low, h₂) = >>=-eq-ok (X.set_min_proto_version ctx low) _ h₁ in
            let (high, u, set_high) = >>=-eq-ok (map_cvt C X max) _ h₂ in
            rw
              (
                L.set_max_proto_version_lem ctx₁ high set_high,
                L.set_min_proto_version_lem ctx low set_low,
              )
              refl

        options-enabled_by_bounds :
            (min max : Option Protocol) (ctx : SslContextBuilder) {ctx' : SslContextBuilder}
            → supported_protocols_options C X min max ctx ≡ ok ctx'
            → (v : Protocol) → enabled_by_bounds ctx' v ≡ enabled_by_bounds ctx v
        unfolding supported_protocols_options enabled_by_bounds
        options-enabled_by_bounds min max ctx h v =
            let (low, l, h₁) = >>=-eq-ok (min_options C X min) _ h in
            let (high, u, h₂) = >>=-eq-ok (max_options C X max) _ h₁ in
            ap
              (λ c.
                in_range (Option.map V.decode (L.config c).min_proto)
                  (Option.map V.decode (L.config c).max_proto) v)
              (sym (ok-injective h₂))
            ∙ rw (L.set_options_lem, L.clear_options_lem) refl

        -- Both versions of the function on one context, where both succeed: with
        -- `have_min_max_version` the context then offers the versions of the range that no option of
        -- it turned off before, and without it those of the range that were between its bounds
        -- before. So both offer the same of the versions that the context offered before.
        pub supported_protocols_agree :
            (min max : Option Protocol) (ctx : SslContextBuilder) {x y : SslContextBuilder}
            → supported_protocols C X true min max ctx ≡ ok x
            → supported_protocols C X false min max ctx ≡ ok y
            → (v : Protocol) → IsVersion v
            → (offered x v ≡ (in_range min max v && enabled ctx v))
              × (offered y v ≡ (enabled_by_bounds ctx v && in_range min max v))
              × ((offered x v && offered ctx v) ≡ (offered y v && offered ctx v))
        unfolding supported_protocols offered
        supported_protocols_agree min max ctx {x} {y} h k v r =
            let (low, high) = bounds_of_ok min max ctx k in
            let (z, made, range) = supported_protocols_options-in_range min max ctx low high in
            let same : z ≡ y = cc (made, k) in
            let bounded = supported_protocols_min_max-in_range min max ctx h v in
            let kept = min_max-enabled min max ctx h v in
            let masked = sym (ap (λ (c : SslContextBuilder). enabled c v) same) ∙ range v r in
            let within = options-enabled_by_bounds min max ctx k v in
            (
              rw (bounded, kept) refl,
              rw (within, masked) refl,
              rw (bounded, kept, within, masked)
                  (and_same (in_range min max v) (enabled ctx v) (enabled_by_bounds ctx v)),
            )
