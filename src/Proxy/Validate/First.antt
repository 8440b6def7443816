-- ===== src/Proxy/Validate/First.antt =====
-- validate.rs: which failure is reported.
use resocks.Base.{
  subst, ℕ, suc, ◌+◌, ◌≤◌, ◌<◌, ◌≡◌, refl, ◌⊎◌, inl, inr, ◌↔◌, ◌≢◌, true, false, Option, none, some,
  List, [], ◌∷◌, All, get_elem?, Option-cases, arith, length, take,
}
use resocks.Rust.Text.{Bytes, is_empty}
use resocks.Proxy.Validate.Host.{
  AllowedHost, IsPrinted, forbidden_in_host-AllowedHost, any_control-All, contains-All,
}
use resocks.Proxy.{ProxyProtocol, socks5, http, https, Node, ProxyConfig, nodes}
use resocks.Proxy.Validate.{
  ProxyConfigError, ChainConfigError, validate_node, validate_from, validate, validate_pair,
  check_credentials, check_http,
}

abbrev pub IsValidNode : Node → Type 0
IsValidNode n = validate_node n ≡ none

-- The entry at an index fails, and each one before it is valid.
pub record FailsFirst (ns : List Node) (index : ℕ) (kind : ProxyConfigError) : Type 0 where
  pub bad : Node
  pub stands : get_elem? ns index ≡ some bad
  pub fails : validate_node bad ≡ some kind
  pub before : All IsValidNode (take index ns)

abbrev Reports : List Node → ℕ → Option ChainConfigError → Type 0
Reports ns start none = All IsValidNode ns
Reports ns start (some e) = (n : ℕ) × (e.node ≡ start + n) × FailsFirst ns n e.kind

Reports-cons :
    (n : Node) (ns : List Node) (start : ℕ) (r : Option ChainConfigError)
    → IsValidNode n
    → Reports ns (suc start) r
    → Reports (n ∷ ns) start r
Reports-cons n ns start none good all = (good, all)
Reports-cons n ns start (some e) good (i, at_i, f) = (
  suc i,
  omega arith,
  record { bad = f.bad; stands = f.stands; fails = f.fails; before = (good, f.before) },
)

validate_from-Reports : (start : ℕ) (ns : List Node) → Reports ns start (validate_from start ns)
unfolding validate_from
validate_from-Reports start [] = tt
validate_from-Reports start (n ∷ ns) = elim (Option-cases (validate_node n)) [
  | inr (kind, fails) ↦
      rw (fails, validate_from)
        (0, omega arith, record { bad = n; stands = refl; fails = fails; before = tt })
  | inl good ↦
      rw (good, validate_from)
        (Reports-cons n ns start (validate_from (suc start) ns) good
          (validate_from-Reports (suc start) ns))
]

-- A chain passes exactly when each of its entries does; otherwise the error names the first entry
-- that fails, counted from the outermost, and its error.
pub validate-FailsFirst :
    (c : ProxyConfig)
    → ((validate c ≡ none) × All IsValidNode (nodes c))
      ⊎ ((e : ChainConfigError) × (validate c ≡ some e) × FailsFirst (nodes c) e.node e.kind)
unfolding validate
validate-FailsFirst c = elim (Option-cases (validate_from 0 (nodes c))) [
  | inl passes ↦ inl (passes, rw passes at (validate_from-Reports 0 (nodes c)))
  | inr (e, fails) ↦
      let (n, at_n, f) = rw fails at (validate_from-Reports 0 (nodes c)) in
      let same : n ≡ e.node = omega arith in
      inr (e, fails, subst (λ i. FailsFirst (nodes c) i e.kind) same f)
]

abbrev SizedField : Bytes → Type 0
SizedField value = (1 ≤ length value) × (length value ≤ 255)

-- The user must not end at a colon, since the password stands behind one.
abbrev PlainPair : Bytes → Bytes → Type 0
PlainPair user pass = All (λ c. c ≢ b':') user × All IsPrinted user × All IsPrinted pass

-- What a protocol can send: RFC 1929 fields of 1 to 255 bytes, or an HTTP Basic pair.
abbrev pub Sendable : ProxyProtocol → Bytes → Bytes → Type 0
Sendable socks5 user pass = SizedField user × SizedField pass
Sendable http user pass = PlainPair user pass
Sendable https user pass = PlainPair user pass

abbrev GoodCredentials : ProxyProtocol → Option Bytes → Option Bytes → Type 0
GoodCredentials protocol none none = Unit {0}
GoodCredentials protocol (some user) (some pass) = Sendable protocol user pass
GoodCredentials protocol _ _ = ⊥

pub record IsGoodNode (n : Node) : Type 0 where
  pub host_nonempty : 0 < length n.host
  pub host_allowed : AllowedHost n.host
  pub port_pos : 0 < n.port
  pub gate_flag : (n.is_gate ≡ true) ↔ (0 < n.gate_level)
  pub credentials : GoodCredentials n.protocol n.user n.password

check_http-Plain : (user pass : Bytes) → (check_http user pass ≡ none) ↔ PlainPair user pass
unfolding check_http
check_http-Plain user pass =
    let colon = contains-All b':' user in
    let name = any_control-All user in
    let secret = any_control-All pass in
    (
      λ h. (colon.0 (ground arith), name.0 (ground arith), secret.0 (ground arith)),
      λ p. ground (arith, colon.1 p.0, name.1 p.1, secret.1 p.2),
    )

pub validate_pair-Sendable :
    (protocol : ProxyProtocol) (user pass : Bytes)
    → (validate_pair protocol user pass ≡ none) ↔ Sendable protocol user pass
unfolding validate_pair
validate_pair-Sendable socks5 user pass = (λ h. ground arith, λ h. ground arith)
validate_pair-Sendable http user pass = check_http-Plain user pass
validate_pair-Sendable https user pass = check_http-Plain user pass

check_credentials-Good :
    (protocol : ProxyProtocol) (user pass : Option Bytes)
    → (check_credentials protocol user pass ≡ none) ↔ GoodCredentials protocol user pass
unfolding check_credentials
check_credentials-Good protocol none none = (λ _. tt, λ _. refl)
check_credentials-Good protocol (some user) (some pass) = validate_pair-Sendable protocol user pass
check_credentials-Good protocol none (some pass) = (λ h. cc, λ h. absurd h)
check_credentials-Good protocol (some user) none = (λ h. cc, λ h. absurd h)

empty-length : (s : Bytes) → (is_empty s ≡ false) ↔ (0 < length s)
empty-length [] = (λ h. cc, λ h. absurd (omega arith))
empty-length (x ∷ s) = (λ _. omega arith, λ _. refl)

-- An entry passes exactly when its host is there and the bytes of no control character, white space,
-- `/` or `@` stand anywhere in it; its port is not 0; its gate flag is set exactly when it has a
-- level; and its credentials are both absent, or both there and such as its protocol can send: of 1
-- to 255 bytes each for SOCKS5, without control characters and with no colon in the user for HTTP.
pub validate_node-IsGoodNode : (n : Node) → (validate_node n ≡ none) ↔ IsGoodNode n
unfolding validate_node
validate_node-IsGoodNode n =
    let allowed = forbidden_in_host-AllowedHost n.host in
    let there = empty-length n.host in
    (
      λ h. record {
        host_nonempty = there.0 (ground arith);
        host_allowed = allowed.0 (ground arith);
        port_pos = ground arith;
        gate_flag = (λ e. ground arith, λ e. ground arith);
        credentials = (check_credentials-Good n.protocol n.user n.password).0 (ground arith);
      },
      λ g.
          let flag = g.gate_flag in
          ground (
            arith,
            there.1 g.host_nonempty,
            allowed.1 g.host_allowed,
            flag.0,
            flag.1,
            (check_credentials-Good n.protocol n.user n.password).1 g.credentials,
          ),
    )
