-- ===== src/Openssl/Versions.antt =====
-- Both versions of `supported_protocols` of src/imp/openssl.rs: with `have_min_max_version`, and by
-- options without it.
pub mod Range
use rust_native_tls.Prelude.{
  ◌≡◌, refl, Bool, true, false, not, Option, none, some, ℕ, ◌+◌, leb, ltb, ◌&&◌, ◌||◌, Result, ok,
  panic, ◌>>=◌, arith,
}
use rust_native_tls.Protocol.{
  Protocol, sslv3, tlsv10, tlsv11, tlsv12, non_exhaustive, in_range, as_usize, IsBound, IsVersion,
}
use rust_native_tls.Openssl.Library.{Crypto, Context}
use rust_native_tls.Openssl.View.{
  Flag, flag_sslv2, flag_sslv3, flag_tlsv1, flag_tlsv1_1, flag_tlsv1_2, is_flag, flag_of,
  OptionLaws, ContextLaws,
}

module _ (C : Crypto) (X : Context C) where
  open X use {
    SslContextBuilder, SslVersion, SslOptions, options_empty, options_union, no_sslv2, no_sslv3,
    no_tlsv1, no_tlsv1_1, no_tlsv1_2,
  }

  abbrev pub Fallible : Type 0 → Type 0
  Fallible A = Result C.ErrorStack A

  -- `unreachable!()` panics.
  unfoldable pub cvt : Protocol → Fallible SslVersion
  cvt sslv3 = ok X.ssl3
  cvt tlsv10 = ok X.tls1
  cvt tlsv11 = ok X.tls1_1
  cvt tlsv12 = ok X.tls1_2
  cvt non_exhaustive = panic

  -- `bound.map(cvt)`
  unfoldable pub map_cvt : Option Protocol → Fallible (Option SslVersion)
  unfolding cvt
  map_cvt none = ok none
  map_cvt (some p) = do v ← cvt p; ok (some v)

  -- With `have_min_max_version`.
  unfoldable pub supported_protocols_min_max :
      Option Protocol → Option Protocol → SslContextBuilder → Fallible SslContextBuilder
  unfolding map_cvt
  supported_protocols_min_max min max ctx = do
    v ← map_cvt min
    ctx ← X.set_min_proto_version ctx v
    w ← map_cvt max
    X.set_max_proto_version ctx w

  infixl 60 ◌∪◌
  abbrev ◌∪◌ : SslOptions → SslOptions → SslOptions
  a ∪ b = options_union a b

  unfoldable pub min_options : Option Protocol → Fallible SslOptions
  min_options none = ok options_empty
  min_options (some sslv3) = ok no_sslv2
  min_options (some tlsv10) = ok (no_sslv2 ∪ no_sslv3)
  min_options (some tlsv11) = ok (no_sslv2 ∪ no_sslv3 ∪ no_tlsv1)
  min_options (some tlsv12) = ok (no_sslv2 ∪ no_sslv3 ∪ no_tlsv1 ∪ no_tlsv1_1)
  min_options (some non_exhaustive) = panic

  unfoldable pub max_options : Option Protocol → Fallible SslOptions
  max_options none = ok options_empty
  max_options (some tlsv12) = ok options_empty
  max_options (some tlsv11) = ok no_tlsv1_2
  max_options (some tlsv10) = ok (no_tlsv1_1 ∪ no_tlsv1_2)
  max_options (some sslv3) = ok (no_tlsv1 ∪ no_tlsv1_1 ∪ no_tlsv1_2)
  max_options (some non_exhaustive) = panic

  -- Without it.
  unfoldable pub supported_protocols_options :
      Option Protocol → Option Protocol → SslContextBuilder → Fallible SslContextBuilder
  supported_protocols_options min max ctx = do
    let no_ssl_mask = no_sslv2 ∪ no_sslv3 ∪ no_tlsv1 ∪ no_tlsv1_1 ∪ no_tlsv1_2
    let cleared = X.clear_options ctx no_ssl_mask
    low ← min_options min
    high ← max_options max
    ok (X.set_options cleared (options_empty ∪ low ∪ high))

  -- The build script's choice.
  unfoldable pub supported_protocols :
      Bool → Option Protocol → Option Protocol → SslContextBuilder → Fallible SslContextBuilder
  supported_protocols true min max ctx = supported_protocols_min_max min max ctx
  supported_protocols false min max ctx = supported_protocols_options min max ctx
