-- ===== src/Server/Socks.antt =====
-- server/mod.rs: `accept`'s SOCKS5 side, statement by statement.
pub mod Authenticated
pub mod Serves
mod Tests
use resocks.Address.{is_some_host_port}
use resocks.Address
use resocks.Base.{
  ℕ, zero, suc, ◌+◌, ◌*◌, Bool, true, false, not, ◌&&◌, ◌||◌, Option, none, some, List, [], ◌∷◌,
  ◌++◌, ltb, ◌==◌, if◌then◌else◌,
}
use resocks.Rust.Ip.{display_ipv4, display_ipv6}
use resocks.Rust.Number.{decimal}
use resocks.Rust.Text.{Bytes, any, contains, is_ascii_control, is_ascii_whitespace, is_empty}
use resocks.Rust.Utf8.{is_utf8, from_utf8_lossy}
use resocks.Server.Wire.{
  Credentials, ServerError, io, protocol, authentication, closed, Wire, Run, ok, err, Cmd, pure,
  fail, ◌>>=◌, ◌>>◌, poll, read_exact, read_u8, read_u16, at, write_all, flush, authenticate, phase,
  send,
}

-- The options but the deadline, which a `Wire` carries.
pub record ServerOptions : Type 0 where
  pub anonymous : Bool
  pub password : Bool
  pub retain_credentials : Bool
  pub raw_credentials : Bool
  pub strict_http : Bool

pub data Protocol : Type 0 where
  socks5 http : Protocol

pub record IncomingRequest : Type 0 where
  pub protocol : Protocol
  pub target : Bytes
  pub username : Option Bytes
  pub username_raw : Option Bytes
  pub credentials : Option Credentials
  pub pipeline : Bytes

abbrev pub auth_failure : Bytes
auth_failure = 1 ∷ 1 ∷ []

abbrev pub auth_fail : {A : Type 0} → Cmd A
auth_fail = send auth_failure >> fail authentication

-- The method to answer with; 255 is none.
pub choose : ServerOptions → Bytes → ℕ
choose o methods =
    if o.password && contains 2 methods
    then 2
    else if o.anonymous && contains 0 methods
    then 0
    else 255

-- A submitted field as text, with its bytes when they are no text; `none` is a refusal.
pub decode : ServerOptions → Bytes → Option (Bytes × Option Bytes)
decode o field =
    if is_utf8 field
    then some (field, none)
    else if o.raw_credentials
    then some (from_utf8_lossy field, some field)
    else none

abbrev pub credentials_of : Bytes × Option Bytes → Bytes × Option Bytes → Credentials
credentials_of (username, username_raw) (password, password_raw) = record {
  username = username;
  password = password;
  username_raw = username_raw;
  password_raw = password_raw;
}

-- What `chosen == 2` yields: the verified credentials.
pub verify_fields : ServerOptions → (Credentials → Bool) → Bytes → Bytes → Cmd (Option Credentials)
unfolding decode
verify_fields o verify user password = elim (decode o user) [
  | none ↦ auth_fail
  | some user' ↦ elim (decode o password) [
    | none ↦ auth_fail
    | some password' ↦ do
      let credentials = credentials_of user' password'
      granted ← authenticate verify credentials
      if not granted then auth_fail else (send (1 ∷ 0 ∷ []) >> pure (some credentials))
  ]
]

pub subnegotiate : ServerOptions → (Credentials → Bool) → Cmd (Option Credentials)
unfolding verify_fields
subnegotiate o verify = do
  header ← read_exact 2
  if not (at header 0 == 1)
      then fail authentication
      else if at header 1 == 0
      then auth_fail
      else (do
        user ← read_exact (at header 1)
        plen ← read_u8
        if plen == 0
            then auth_fail
            else (do password ← read_exact plen; verify_fields o verify user password))

-- The ten bytes of a failure reply.
abbrev pub failure : ℕ → Bytes
failure code = 5 ∷ code ∷ 0 ∷ 1 ∷ 0 ∷ 0 ∷ 0 ∷ 0 ∷ 0 ∷ 0 ∷ []

abbrev pub with_port : Bytes → ℕ → Bytes
with_port host port = host ++ b':' ∷ decimal port

pub bad_domain : Bytes → ℕ → Bool
bad_domain domain port =
    is_empty domain
    || any (λ b. is_ascii_control b || is_ascii_whitespace b) domain
    || not (is_some_host_port (Address.parse (with_port domain port)))

pub read_domain : Cmd Bytes
unfolding bad_domain
read_domain = do
  len ← read_u8
  domain ← read_exact len
  port ← read_u16
  if not (is_utf8 domain)
      then fail protocol
      else if bad_domain domain port
      then (send (failure 4) >> fail protocol)
      else pure (with_port domain port)

pub read_target : ℕ → Cmd Bytes
unfolding read_domain
read_target kind =
    if kind == 1
    then (do ip ← read_exact 4; port ← read_u16; pure (with_port (display_ipv4 ip) port))
    else if kind == 4
    then (do
      ip ← read_exact 16
      port ← read_u16
      pure (with_port (b'[' ∷ (display_ipv6 ip ++ b']' ∷ [])) port))
    else if kind == 3
    then read_domain
    else (send (failure 8) >> fail protocol)

-- From the negotiated method on.
pub request : Cmd Bytes
unfolding read_target
request = do
  header ← read_exact 4
  if not (at header 0 == 5)
      then fail protocol
      else if not (at header 1 == 1)
      then (send (failure 7) >> fail protocol)
      else read_target (at header 3)

abbrev map_option {ℓ κ} : {A : Type ℓ} → {B : Type κ} → (A → B) → Option A → Option B
map_option f none = none
map_option f (some a) = some (f a)

abbrev join_option : Option (Option Bytes) → Option Bytes
join_option none = none
join_option (some s) = s

abbrev pub incoming : ServerOptions → Option Credentials → Bytes → IncomingRequest
incoming o verified target = record {
  protocol = socks5;
  target = target;
  username = map_option (λ c. c.username) verified;
  username_raw = join_option (map_option (λ c. c.username_raw) verified);
  credentials = if o.retain_credentials then verified else none;
  pipeline = [];
}

pub socks : ServerOptions → (Credentials → Bool) → Cmd IncomingRequest
unfolding choose subnegotiate request
socks o verify = do
  nmethods ← read_u8
  methods ← read_exact nmethods
  let chosen = choose o methods
  if chosen == 255 then (send (5 ∷ 255 ∷ []) >> fail authentication) else (do
    send (5 ∷ chosen ∷ [])
    verified ← (if chosen == 2 then subnegotiate o verify else pure none)
    target ← request
    pure (incoming o verified target))
