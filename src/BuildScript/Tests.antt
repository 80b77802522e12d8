-- ===== src/BuildScript/Tests.antt =====
-- The theorem on build.rs at a concrete input.
use mathlib.Core.Option
use rust_native_tls.Prelude.{◌≡◌, refl, codes, none, some, [], ◌∷◌, ok, arith}
use rust_native_tls.BuildScript.{cfg_line, main}
use rust_native_tls.BuildScript.Version.{hex, main-hex}

-- OpenSSL 1.1.0 is 0x10100000.
hex_of_version : hex 0x10100000 ≡ codes "10100000"
unfolding hex
hex_of_version = refl

main-hex_example :
    main (Option.map hex (some 0x10100000)) (Option.map hex none) [] ≡ (cfg_line ∷ [], ok tt)
main-hex_example = main-hex (some 0x10100000) none (omega arith) tt
