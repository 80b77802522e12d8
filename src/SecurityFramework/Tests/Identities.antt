-- ===== src/SecurityFramework/Tests/Identities.antt =====
-- The theorems on the identities and channel bindings of src/imp/security_framework.rs at concrete
-- inputs.
use rust_native_tls.Prelude.{
  zeros, ℕ, ◌++◌, ◌≡◌, ◌⊎◌, refl, true, false, none, some, List, [], ◌∷◌, codes, length,
  starts_with, keep, same_text, ok,
}
use rust_native_tls.SecurityFramework.Process.{macos, Process}
use rust_native_tls.SecurityFramework.Identity.{
  Identity, hex_bytes, random_password, identity_of_items, import_pair, from_pkcs8, pkcs8_guard,
}
use rust_native_tls.SecurityFramework.Identity.Password.{decode_hex, random_password-hex}
use rust_native_tls.SecurityFramework.Identity.Chain.{HasLeaf, from_pkcs8-HasLeaf}
use rust_native_tls.SecurityFramework.Pkcs12.{
  Import, pop, make_keychain, kept, keychain_of, unlocked, shared_keychain, import_options,
  chain_of, with_chain, identity_of, from_last, from_pkcs12, at_exit,
}
use rust_native_tls.SecurityFramework.Pkcs12.Chain.{IsImported, from_pkcs12-IsImported}
use rust_native_tls.SecurityFramework.Directories.Held.{held}
use rust_native_tls.SecurityFramework.Directories.Exit.{
  Call, pkcs8, pkcs12, make_all, make_all-dirs,
}
use rust_native_tls.SecurityFramework.Connector.{TlsStream}
use rust_native_tls.SecurityFramework.Digest.{
  one_of, digest_of, digest, hash, digest_of_property, signature_property,
}
use rust_native_tls.SecurityFramework.Stream.{tls_server_end_point}
use rust_native_tls.SecurityFramework.Stream.EndPoint.{
  IsEndPoint, IsBinding, tls_server_end_point-IsBinding,
}
use rust_native_tls.SecurityFramework.Tests.Toy.{library, dir_laws, random_laws}

-- A process without directories.
abbrev empty : Process library
empty = record { temp_keychain = none; poisoned = false; set_at_exit = false; system = [] }

-- Two certificates, and a key.
abbrev pem : List ℕ
pem = 21 ∷ 22 ∷ []

-- Both ways to make an identity.
abbrev calls : List Call
calls = pkcs8 pem pkcs8_guard ∷ pkcs12 (5 ∷ 6 ∷ []) [] ∷ []

make_all-dirs_example :
    (dir_laws.dirs (make_all library macos calls empty).system
      ≡ held library dir_laws (make_all library macos calls empty).temp_keychain)
    × (((make_all library macos calls empty).poisoned ≡ true)
        ⊎ (dir_laws.dirs (at_exit library (make_all library macos calls empty)).system ≡ []))
make_all-dirs_example = make_all-dirs library dir_laws macos calls empty refl refl

abbrev password : List ℕ
password = codes "ABABABABABABABABABAB"

random_password-hex_example :
    (bytes : List ℕ) × (library.copy_bytes 10 [] ≡ ([], some bytes))
    × (decode_hex password ≡ some bytes)
    × (length password ≡ 20)
unfolding random_password hex_bytes
random_password-hex_example =
    random_password-hex library random_laws empty {p' = empty} {password = password} refl

abbrev paired : Identity library
paired = record { identity = 21; chain = pem }

from_pkcs8-HasLeaf_example :
    (starts_with pkcs8_guard pkcs8_guard ≡ true) × HasLeaf library pem pkcs8_guard [] [] paired
unfolding from_pkcs8 import_pair random_password identity_of_items
from_pkcs8-HasLeaf_example =
    from_pkcs8-HasLeaf library pem pkcs8_guard empty {p' = empty} {i = paired} refl

-- The chain of the archive holds certificate 5 of the identity.
abbrev imported : Identity library
imported = record { identity = 4; chain = 6 ∷ [] }

-- The process with the shared key chain.
abbrev holding : Process library
holding = record {
  temp_keychain = some (0, 0);
  poisoned = false;
  set_at_exit = true;
  system = 0 ∷ [];
}

from_pkcs12-IsImported_example :
    (q : Process library) × (before : List (Import library)) × (last : Import library)
    × (import_options library macos (5 ∷ 6 ∷ []) [] empty ≡ (q, ok (before ++ last ∷ [])))
    × IsImported library last imported
unfolding from_pkcs12 import_options shared_keychain keychain_of make_keychain kept unlocked
    from_last pop identity_of with_chain chain_of keep same_text
from_pkcs12-IsImported_example =
    from_pkcs12-IsImported library macos (5 ∷ 6 ∷ []) [] empty {p' = holding} {i = imported} refl

abbrev served : TlsStream library
served = record { stream = 2; cert = some 5 }

-- The toy digest of certificate 5, its length and the cleared buffer.
abbrev binding : List ℕ
binding = 5 ∷ 1 ∷ zeros 32

tls_server_end_point-IsBinding_example :
    (cert : ℕ) × IsEndPoint library served cert × IsBinding library cert binding
unfolding tls_server_end_point signature_property digest_of_property digest_of one_of keep same_text
    hash digest
tls_server_end_point-IsBinding_example =
    tls_server_end_point-IsBinding library macos served {binding = binding} refl
