-- ===== src/Lib.antt =====
-- resocks5: a SOCKS5 and HTTP-CONNECT proxy that spreads clients over upstream proxies.
--
-- The library crate, crates/resocks5-net, rates the upstreams, parses and validates their
-- configuration, links them to chains, reads the inbound handshakes and walks TLS records; the binary admits clients
-- by address. This development models these parts, each as functions on explicit state:
--
-- - Rating: crates/resocks5-net/src/session/rating. Rating/Quarantine is quarantine.rs (`Cell`,
--   `QuarantinePolicy`, `hard_failure`, `trip_now`, `try_lease`, `restore`, `snapshot`, `success`,
--   `deadline`, `duration_for`); Rating/Policy, Rating/Sand, Rating/Rng and Rating/Select are
--   policy.rs, sand.rs, rng.rs and select.rs; Rating/Ratings is mod.rs and health.rs, the two vectors
--   and the generator behind one lock. An operation takes the state and the instant, and returns the
--   new state; `none` stands for a panic where an index may be out of range. Instants and durations
--   count nanoseconds on ℕ; the last instant that a clock represents is a parameter, and a `Duration`
--   saturates at its own largest value. `f64` is a parameter too, in Rating/Float, with one law on
--   `max` for the draw.
-- - Rotator: crates/resocks5-net/src/session/rotator. Rotator/Sticky is `StickyCache` of mod.rs, with
--   its map and the two ordered indices, whose order is in Rotator/Order; Rotator/Slots is the table
--   from an upstream's hash to its slot; Rotator/Upstreams is `ProxyRotator` and `record_error` of
--   record_error.rs on top of both and of Rating/Ratings. The hash that `RandomState` draws is a
--   parameter, any function at all, and so are the readings of the clock.
-- - Error: crates/resocks5-net/src/error, the error classes of mod.rs and the tests of classify.rs.
-- - Address: crates/resocks5-net/src/connect/util/host_port.rs. A `str` is its list of bytes.
-- - Proxy: crates/resocks5-net/src/types (proxy_config.rs, chain.rs in Proxy/Chain, validate.rs in
--   Proxy/Validate) and connect/util/parse_proxy_str.rs in Proxy/Line. A configuration with its
--   nested gate is a data type of one node behind another; `Arc` sharing shows in no result.
-- - Tls: crates/resocks5-net/src/connect/tls/tls_records.rs in Tls/Records. A range into the walked
--   buffer is the bytes it holds, and the lazy walk is the list of records.
-- - Server: crates/resocks5-net/src/server. Server/Wire is the state of a handshake: the bytes still
--   to come, the writes and the calls of the authentication closure so far, and the number of awaits
--   that complete before the deadline or a transport failure cuts it short, at any of them.
--   Server/Socks is `socks` of mod.rs, Server/Http is `http` and `accept`, statement by statement;
--   Server/StrictHttp is strict_http.rs, Server/Reply is reply.rs, and
--   Server/Prefixed is prefixed.rs over any wrapped stream. The closure is a parameter, a
--   function of the credentials, and so is the decoder of the base64 crate.
-- - Auth: crates/resocks5/src/auth/state. Auth/State is mod.rs (`AuthState`, `build`,
--   `client_ip_allowed`, `is_direct`); Auth/Persist is `persist_claim` of claim.rs with `write_atomic`
--   of config/users/users_file, on the contents of the file and what the system answers; Auth/Login
--   is `verify_async` of verify.rs with `verify_prepare`, `prepare_claim` and `claim_commit` of
--   claim.rs, one step for each access to shared state, and a phase for each place between two
--   steps; Auth/System lets any number of logins take their steps in any order, while other processes
--   edit the file between the calls that hold its lock, and clients go away. argon2 and HMAC are
--   parameters; `Hashes` is what is asked of argon2: a hash that it makes verifies the password and is
--   not the sentinel `init`.
-- - Clients: crates/resocks5/src/config/allowed_clients.rs: `matches` on compiled
--   rules, and `compile_allowed_clients` in Clients/Compile.
-- - Rust: what these files call of Rust's standard library, written out: searching and splitting in
--   Rust/Text, `u16::from_str` and decimal printing in Rust/Number, `Ipv6Addr::from_str` in Rust/Net, with the
--   values of the addresses in Rust/Net/Values,
--   white space in Rust/Space, UTF-8 in Rust/Utf8, the printing of addresses in Rust/Ip, `HashMap`
--   and `BTreeSet` in Rust/Collections, as lists without order and in order.
-- - Base: the shared names, tests into Bool, list lemmas and saturating words.
-- - Tests: concrete runs.
--
-- The parts meet where the code does: Rotator/Upstreams calls the sticky cache, the slots,
-- the ratings and the error tests; Rating/Ratings calls a cell's operations and the draws;
-- Proxy/Line calls Address and the constructors of Proxy.
--
-- Loops are structural recursion. `duration_for` recurs on the rounds left, which its loop counts;
-- the IPv6 parser recurs on the eight groups; the loop that reads an HTTP header recurs on the awaits
-- that are left, as each round is one. The digits of a number run on fuel: five for a
-- `u16` in decimal, which reading them back shows to be enough, and four in hexadecimal.
--
-- Not modelled: the probe task of the rotator, the pools and chain sessions, TLS fragmentation, dialling and
-- tunnels, and the rest of the binary crates/resocks5: configuration files, command line and logging. Error texts and
-- `Debug` output are left out of the parts that are modelled.

pub mod Address
pub mod Auth
pub mod Base
pub mod Clients
pub mod Error
pub mod Proxy
pub mod Rating
pub mod Rotator
pub mod Rust
pub mod Server
pub mod Tests
pub mod Tls
