-- ===== src/Proxy/Line/Accepts.antt =====
-- parse_proxy_str.rs: what every accepted line gives.
use resocks.Address.RoundTrip.{IsAddress, parse-IsAddress}
use resocks.Address.{HostPort}
use resocks.Address
use resocks.Base.{
  ℕ, ◌≤◌, ◌≡◌, refl, inl, inr, Bool, true, false, ◌&&◌, Option, none, some, ltb, if◌then◌else◌,
  Option-cases, Bool-cases, arith,
}
use resocks.Rust.Space.{is_blank}
use resocks.Rust.Net.Separators.{is_ipv6-opening}
use resocks.Rust.Text.{Bytes, contains, is_empty, split_once, starts_with_byte}
use resocks.Proxy.{ProxyProtocol, Node, strip_brackets, strip_brackets-plain, new}
use resocks.Proxy.Line.{
  ParseProxyError, empty, comment, bad_gate, Parsed, ok, err, finish, with_credentials,
  count_markers, behind_markers, parse_proxy_str,
}

-- Both credentials, or none.
abbrev pub IsPaired : Option Bytes → Option Bytes → Type 0
IsPaired none none = Unit
IsPaired (some _) (some _) = Unit
IsPaired _ _ = ⊥

pub record IsParsed (protocol : ProxyProtocol) (n : Node) : Type 0 where
  pub protocol_given : n.protocol ≡ protocol
  pub address : IsAddress n.host n.port
  pub level_u8 : n.gate_level ≤ 255
  pub gate_flag : n.is_gate ≡ ltb 0 n.gate_level
  pub credentials : IsPaired n.user n.password

abbrev IsGood : ProxyProtocol → Parsed → Type 0
IsGood protocol (ok n) = IsParsed protocol n
IsGood protocol (err e) = Unit

-- `ProxyConfig::new` keeps the host of an address.
pub strip_brackets-IsAddress :
    (host : Bytes) (port : ℕ) → IsAddress host port → strip_brackets host ≡ host
strip_brackets-IsAddress host port (inl v6, h) = strip_brackets-plain host (is_ipv6-opening host v6)
strip_brackets-IsAddress host port (inr plain, h) = strip_brackets-plain host plain.no_bracket

finish-IsGood :
    (protocol : ProxyProtocol) (level : ℕ) (user password : Option Bytes) (s : Bytes)
    → level ≤ 255
    → IsPaired user password
    → IsGood protocol (finish protocol level user password s)
unfolding finish new
finish-IsGood protocol level user password s h p = elim (Option-cases (Address.parse s)) [
  | inl absent ↦ rw (absent, finish) tt
  | inr (hp, e) ↦
      let a = parse-IsAddress s hp e in
      rw (e, finish)
        (record {
          protocol_given = refl;
          address = rw (strip_brackets-IsAddress hp.host hp.port a) a;
          level_u8 = h;
          gate_flag = refl;
          credentials = p;
        })
]

with_credentials-IsGood :
    (protocol : ProxyProtocol) (level : ℕ) (s : Bytes)
    → level ≤ 255
    → IsGood protocol (with_credentials protocol level s)
unfolding with_credentials
with_credentials-IsGood protocol level s h = elim (Option-cases (split_once b'@' s)) [
  | inl absent ↦ rw (absent, with_credentials) (finish-IsGood protocol level none none s h tt)
  | inr ((creds, rest), e) ↦ elim (Bool-cases (contains b'@' rest)) [
    | inl second ↦ rw (e, with_credentials) (rw second tt)
    | inr single ↦ elim (Option-cases (split_once b':' creds)) [
      | inl no_colon ↦ rw (e, with_credentials) (rw (single, no_colon) tt)
      | inr ((user, password), split) ↦
          rw (e, with_credentials)
            (rw (single, split)
              (finish-IsGood protocol level (some user) (some password) rest h tt))
    ]
  ]
]

unless-IsGood :
    (protocol : ProxyProtocol) (refused : Bool) (e : ParseProxyError) (r : Parsed)
    → (refused ≡ false → IsGood protocol r)
    → IsGood protocol (if refused then err e else r)
unless-IsGood protocol true e r h = tt
unless-IsGood protocol false e r h = h refl

parse_proxy_str-IsGood :
    (s : Bytes) (protocol : ProxyProtocol) → IsGood protocol (parse_proxy_str s protocol)
unfolding parse_proxy_str
parse_proxy_str-IsGood s protocol =
    let level = count_markers s in
    let rest = behind_markers s in
    unless-IsGood protocol (is_blank s) empty _ λ _.
      unless-IsGood protocol (starts_with_byte b'#' s) comment _ λ _.
        unless-IsGood protocol (ltb 255 level) bad_gate _ λ u8.
          unless-IsGood protocol (ltb 0 level && is_empty rest) bad_gate _
            λ _. with_credentials-IsGood protocol level rest (ground arith)

-- Whatever line is accepted: the protocol is the one given, the host and port are an address, the
-- gate level is a `u8` and the gate flag says whether it is positive, and the credentials are both
-- there or both absent.
pub parse_proxy_str-IsParsed :
    (s : Bytes) (protocol : ProxyProtocol) (n : Node)
    → parse_proxy_str s protocol ≡ ok n
    → IsParsed protocol n
parse_proxy_str-IsParsed s protocol n e = rw e at (parse_proxy_str-IsGood s protocol)
