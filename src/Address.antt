-- ===== src/Address.antt =====
-- crates/resocks5-net/src/connect/util/host_port.rs: `host:port` pairs, on the bytes of a `str`.
use resocks.Base.{ℕ, Bool, true, false, not, Option, none, some, ◌∷◌, ◌++◌, if◌then◌else◌}
use resocks.Rust.Net.{is_ipv6}
use resocks.Rust.Number.{parse_u16, parse_unsigned, decimal}
use resocks.Rust.Text.{
  Bytes, contains, is_empty, split_once, rsplit_once, strip_prefix, starts_with_byte,
}
pub mod Forms
pub mod RoundTrip

pub record HostPort : Type 0 where
  pub host : Bytes
  pub port : ℕ

-- `Some(Self { host, port: port.parse().ok()? })`.
with_port : Bytes → Bytes → Option HostPort
with_port host port = elim (parse_u16 port) [
  | none ↦ none
  | some n ↦ some (record { host = host; port = n })
]

-- The first branch of `parse`, behind the opening bracket.
parse_bracketed : Bytes → Option HostPort
unfolding with_port
parse_bracketed rest = elim (split_once b']' rest) [
  | none ↦ none
  | some (host, after) ↦
      let port = strip_prefix b':' after in
      if not (is_ipv6 host) then none else elim port [ none ↦ none | some p ↦ with_port host p ]
]

-- The second branch.
parse_bare : Bytes → Option HostPort
unfolding with_port
parse_bare s = elim (rsplit_once b':' s) [
  | none ↦ none
  | some (host, port) ↦
      if contains b':' host
      then if is_ipv6 host then with_port host port else none
      else if is_empty host
      then none
      else with_port host port
]

unfoldable pub parse : Bytes → Option HostPort
unfolding parse_bracketed parse_bare
parse s = elim (strip_prefix b'[' s) [ some rest ↦ parse_bracketed rest | none ↦ parse_bare s ]

-- `parse(s).is_some()`.
abbrev pub is_some_host_port : Option HostPort → Bool
is_some_host_port none = false
is_some_host_port (some _) = true

unfoldable pub format : Bytes → ℕ → Bytes
format host port =
    if is_ipv6 host
    then b'[' ∷ (host ++ b']' ∷ b':' ∷ decimal port)
    else host ++ b':' ∷ decimal port
