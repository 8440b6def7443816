-- ===== src/Proxy/Validate.antt =====
-- crates/resocks5-net/src/types/validate.rs: the check of an entry and of a chain.
use resocks.Base.{
  ℕ, zero, suc, ◌+◌, ◌≡◌, refl, Bool, true, false, not, ◌&&◌, ◌||◌, Option, none, some, List, [],
  ◌∷◌, length, arith, ltb, leb, ◌==◌, if◌then◌else◌,
}
use resocks.Rust.Space.{has_space}
use resocks.Rust.Text.{Bytes, any, contains, is_ascii_control, is_empty}
use resocks.Proxy.{ProxyProtocol, socks5, http, https, Node, ProxyConfig, nodes, with_auth}
pub mod First
pub mod Host

pub data CredentialField : Type 0 where
  username password : CredentialField

pub data ProxyConfigError : Type 0 where
  empty_host invalid_host zero_port incomplete_credentials : ProxyConfigError
  empty_credential : CredentialField → ProxyConfigError
  credential_too_long : CredentialField → ℕ → ProxyConfigError
  username_contains_colon : ProxyConfigError
  control_character : CredentialField → ProxyConfigError
  inconsistent_gate_flag : ProxyConfigError

-- One round of the SOCKS5 loop; `none` goes on.
check_length : CredentialField → Bytes → Option ProxyConfigError
check_length field value =
    if length value == 0
    then some (empty_credential field)
    else if ltb 255 (length value)
    then some (credential_too_long field (length value))
    else none

-- One round of the HTTP loop.
check_control : CredentialField → Bytes → Option ProxyConfigError
check_control field value =
    if any is_ascii_control value then some (control_character field) else none

abbrev or_else {ℓ} : {A : Type ℓ} → Option A → Option A → Option A
or_else (some e) next = some e
or_else none next = next

check_http : Bytes → Bytes → Option ProxyConfigError
unfolding check_control
check_http user pass =
    if contains b':' user
    then some username_contains_colon
    else or_else (check_control username user) (check_control password pass)

-- `none` is `Ok(())`.
pub validate_pair : ProxyProtocol → Bytes → Bytes → Option ProxyConfigError
unfolding check_length check_http
validate_pair socks5 user pass = or_else (check_length username user) (check_length password pass)
validate_pair http user pass = check_http user pass
validate_pair https user pass = check_http user pass

-- `self.host.chars().any(is_host_char_forbidden)`.
pub forbidden_in_host : Bytes → Bool
forbidden_in_host host =
    any (λ c. is_ascii_control c || (c == b'/') || (c == b'@')) host || has_space host

check_credentials : ProxyProtocol → Option Bytes → Option Bytes → Option ProxyConfigError
unfolding validate_pair
check_credentials protocol none none = none
check_credentials protocol (some user) (some pass) = validate_pair protocol user pass
check_credentials protocol (some _) none = some incomplete_credentials
check_credentials protocol none (some _) = some incomplete_credentials

abbrev bool_ne : Bool → Bool → Bool
bool_ne true b = not b
bool_ne false b = b

pub validate_node : Node → Option ProxyConfigError
unfolding forbidden_in_host check_credentials
validate_node n =
    if is_empty n.host
    then some empty_host
    else if forbidden_in_host n.host
    then some invalid_host
    else if n.port == 0
    then some zero_port
    else if bool_ne n.is_gate (ltb 0 n.gate_level)
    then some inconsistent_gate_flag
    else check_credentials n.protocol n.user n.password

pub record ChainConfigError : Type 0 where
  pub node : ℕ
  pub kind : ProxyConfigError

-- The loop of `validate`, from this index on.
validate_from : ℕ → List Node → Option ChainConfigError
unfolding validate_node
validate_from index [] = none
validate_from index (n ∷ ns) = elim (validate_node n) [
  | some kind ↦ some (record { node = index; kind = kind })
  | none ↦ validate_from (suc index) ns
]

pub validate : ProxyConfig → Option ChainConfigError
unfolding validate_from
validate c = validate_from 0 (nodes c)

pub data AuthResult : Type 0 where
  ok : Node → AuthResult
  err : ProxyConfigError → AuthResult

pub try_with_auth : Node → Bytes → Bytes → AuthResult
unfolding validate_pair
try_with_auth n user pass = elim (validate_pair n.protocol user pass) [
  | some e ↦ err e
  | none ↦ ok (with_auth n user pass)
]
