-- ===== src/Rfc5929.antt =====
-- The hash of a `tls-server-end-point` channel binding (RFC 5929, section 4.1), which the three
-- `tls_server_end_point` functions of src/imp compute: that of the certificate's signature
-- algorithm, with SHA-256 in place of MD5 and SHA-1.
use rust_native_tls.Prelude.{◌≡◌, Option, none, some}

pub data Hash : Type 0 where
  md5 sha1 sha224 sha256 sha384 sha512 : Hash

abbrev pub binding_hash : Hash → Hash
binding_hash md5 = sha256
binding_hash sha1 = sha256
binding_hash h = h

-- The hash that is used is the right one for a signature's hash, where that is known.
abbrev pub Binds : Option Hash → Hash → Type 0
Binds none used = Unit
Binds (some h) used = used ≡ binding_hash h
