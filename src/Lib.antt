-- ===== src/Lib.antt =====
-- Verification of rust-native-tls, an abstraction over the platform's TLS library: OpenSSL,
-- SChannel on Windows, Security Framework on Apple systems.
--
-- The public API of src/lib.rs collects options in two builders and hands them to one of three
-- backends, chosen at compile time, whose `TlsConnector` and `TlsAcceptor` translate them into
-- calls of the platform's library. The development models the builders, the three backends, the
-- public types over any of them, the build script that chooses between two variants of the
-- OpenSSL backend, and the example programs. The foreign crates `openssl`, `openssl-probe`,
-- `schannel`, `security-framework` and `tempfile` are parameters: records of types and functions
-- (the three files Library), and what the code relies on of their documented behaviour is a
-- record of laws (`OptionLaws`, `VersionLaws` and `ContextLaws` of Openssl/View,
-- `ConfigurationLaws`, `HashLaws`, `BuilderLaws`, `StoreLaws`, `ClientLaws`, `ServerLaws`,
-- `DirLaws`, `RandomLaws`; `Wire`, `IsSteady` and `NeverInterrupted` of the streams that the
-- examples use). The `Tests` modules fill each record with a small concrete library.
--
-- Files and the code they model:
--   Prelude and Prelude/*    shared: results with a panic, a state monad, UTF-8 and slices of
--                            `str`, decimal numbers, `io::Error`
--   Protocol                 src/lib.rs: `Protocol`, and the range of versions that bounds mean
--   Rfc5929                  the hash that a channel binding takes
--   Builder/*                src/lib.rs: the two builders; Calls has sequences of builder calls
--   Api/Backend              src/lib.rs: what it uses of the module `imp`, as an interface
--   Api/Errors               `Error`, `HandshakeError`
--   Api/Credentials          `Identity`, `Certificate::from_pem`, `TlsConnectorBuilder::build`
--   Api/Connections          `TlsConnector`, `TlsAcceptor`, `MidHandshakeTlsStream`
--   Api/Streams              `TlsStream`
--   Api/Openssl, Api/Schannel, Api/Apple
--                            the three backends behind the interface
--   Api/Retry                clients that resume interrupted handshakes
--   Api/Policy/*             connections from the builder to the library
--   Openssl/Versions         src/imp/openssl.rs: both variants of `supported_protocols`
--   Openssl/Trust            `init_trust`, `load_android_root_certs`
--   Openssl/Error            `Error`, `HandshakeError` and the conversions
--   Openssl/Identity         `Identity`, `Certificate`
--   Openssl/Alpn             the ALPN block of `TlsConnector::new`
--   Openssl/Connector        `TlsConnector`, `TlsAcceptor`, `MidHandshakeTlsStream::handshake`;
--                            Calls has the calls on a context that a builder asks for
--   Openssl/Stream           `TlsStream`
--   Schannel/Error           src/imp/schannel.rs: `Error`
--   Schannel/Protocols       `PROTOCOLS`, `convert_protocols`
--   Schannel/Pem             the module `pem`
--   Schannel/Certificate     `Certificate`, and the loops over the blocks of a chain
--   Schannel/Identity        `Identity`, `gen_container_name`
--   Schannel/Connector       `TlsConnector` with its verification callback, `TlsAcceptor`,
--                            `MidHandshakeTlsStream::handshake`
--   Schannel/Stream          `TlsStream`
--   SecurityFramework/Error        src/imp/security_framework.rs: `Error`
--   SecurityFramework/Process      `SET_AT_EXIT`, `TEMP_KEYCHAIN` and its mutex, temporary
--                                  directories
--   SecurityFramework/Identity     `Identity::from_pkcs8`, `random_password`
--   SecurityFramework/Pkcs12       `Identity::from_pkcs12`, `Identity::import_options`, `atexit`
--   SecurityFramework/Certificate  `Certificate`
--   SecurityFramework/Directories  which temporary directories these leave
--   SecurityFramework/Connector    `TlsConnector`, `TlsAcceptor`, `MidHandshakeTlsStream`
--   SecurityFramework/Digest       `Digest`, and how `tls_server_end_point` chooses one
--   SecurityFramework/Stream       `TlsStream`
--   BuildScript              build.rs: `main`
--   Examples/Std             `write_all` and `read_to_end` of the standard library, as the programs
--                            under examples/ use them; Wire has the bytes that they pass
--   Examples/Client          examples/google-connect.rs; Prints has what it prints, Panics when not
--   Examples/Server          examples/simple-server.rs, examples/simple-server-pkcs8.rs: a
--                            connection, its thread a call at a time, and the loop with its
--                            threads in any order of their calls; Panics has how a connection's
--                            thread comes to a panic
--   Examples/Setup           both servers up to their loops; Serves has them as a whole, Openssl
--                            simple-server-pkcs8 over src/imp/openssl.rs
--   Schannel/Tests/PemSplit  the test `test_split` of src/imp/schannel.rs
--
-- How the code is modelled. A method that takes `&mut self` returns the new state with its
-- result, and a call of a library that may change a stream does too. `get_mut` is the inner stream
-- with a function that puts a changed one back. `?` is the bind of `Result`,
-- which has a third constructor, `panic`, for `unwrap`, `unreachable!` and a slice off a
-- character boundary. The newtypes of src/lib.rs and the `Error` of SChannel and of Security
-- Framework stand for what they hold. The state of a process that calls change (`ONCE`,
-- `COUNTER`, `TEMP_KEYCHAIN` with the poison of its mutex, `SET_AT_EXIT`, the system) is a record
-- that they pass on; the code under a lock is one step. Bytes are natural numbers and a string is
-- its UTF-8 bytes; `as u8` is taken modulo 256, `as CC_LONG` modulo 2^32 and the counter of
-- `gen_container_name` modulo 2^32 or 2^64, by the target's `usize`. The feature `alpn` is on.
-- The build script's `have_min_max_version`, which BuildScript computes, and the target Android
-- are parameters of a build.
--
-- Fuel. `collect` of Schannel/Pem runs the iterator `PemBlock` for a number of calls; with one
-- more than the text has bytes it comes to the end, since each call passes at least one byte.
-- Blocks are collected before the first is used, while the code draws them as it goes: drawing
-- one has no effect on anything else. `decode` of Openssl/Alpn/Wire is a reader for the statements
-- and takes fuel too. The fuel of the examples counts calls of `write` or `read`: a connection of
-- simple-server-pkcs8, whose reply has at most 1035 bytes, ends with 1038 if no call is
-- interrupted.
--
-- Not modelled: the derived `Debug` of the API's types and of connectors, log messages, the
-- compile-time check `_check_kinds`, the tests of src/test.rs, which run over the network, and the
-- TLS protocol itself, which is the libraries'.
pub mod Prelude
pub mod Protocol
pub mod Rfc5929
pub mod Api
pub mod Builder
pub mod Openssl
pub mod Schannel
pub mod SecurityFramework
pub mod BuildScript
pub mod Examples
