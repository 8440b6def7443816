-- ===== src/Proxy/Line.antt =====
-- crates/resocks5-net/src/connect/util/parse_proxy_str.rs: a line of an upstream list.
use resocks.Address.{HostPort}
use resocks.Address
use resocks.Base.{
  ℕ, zero, suc, ◌+◌, Bool, true, false, not, ◌&&◌, ◌||◌, Option, none, some, List, [], ◌∷◌, ltb,
  ◌==◌, if◌then◌else◌,
}
use resocks.Rust.Space.{is_blank}
use resocks.Rust.Text.{Bytes, contains, is_empty, split_once, starts_with_byte}
use resocks.Proxy.{ProxyProtocol, Node}
use resocks.Proxy
pub mod Accepts
pub mod RoundTrip

pub data ParseProxyError : Type 0 where
  empty comment bad_host_port bad_gate : ParseProxyError

pub data Parsed : Type 0 where
  ok : Node → Parsed
  err : ParseProxyError → Parsed

-- `bytes().take_while(|b| *b == b'*').count()`, and the text behind the markers.
pub count_markers : Bytes → ℕ
count_markers [] = 0
count_markers (x ∷ xs) = if x == b'*' then suc (count_markers xs) else 0

pub behind_markers : Bytes → Bytes
behind_markers [] = []
behind_markers (x ∷ xs) = if x == b'*' then behind_markers xs else x ∷ xs

-- The last step: the address, and the configuration with these credentials.
finish : ProxyProtocol → ℕ → Option Bytes → Option Bytes → Bytes → Parsed
finish protocol level user password host_port = elim (Address.parse host_port) [
  | none ↦ err bad_host_port
  | some hp ↦ ok (record (Proxy.new protocol hp.host hp.port) {
    user = user;
    password = password;
    gate_level = level;
    is_gate = ltb 0 level;
  })
]

-- The credentials, if there are any, in front of the address.
with_credentials : ProxyProtocol → ℕ → Bytes → Parsed
unfolding finish
with_credentials protocol level s = elim (split_once b'@' s) [
  | none ↦ finish protocol level none none s
  | some (creds, rest) ↦
      if contains b'@' rest then err bad_host_port else elim (split_once b':' creds) [
        | none ↦ err bad_host_port
        | some (user, password) ↦ finish protocol level (some user) (some password) rest
      ]
]

pub parse_proxy_str : Bytes → ProxyProtocol → Parsed
unfolding count_markers behind_markers with_credentials
parse_proxy_str conn_str protocol =
    let marker_count = count_markers conn_str in
    let rest = behind_markers conn_str in
    if is_blank conn_str
    then err empty
    else if starts_with_byte b'#' conn_str
    then err comment
    else if ltb 255 marker_count
    then err bad_gate
    else if ltb 0 marker_count && is_empty rest
    then err bad_gate
    else with_credentials protocol marker_count rest
