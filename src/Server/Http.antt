-- ===== src/Server/Http.antt =====
-- crates/resocks5-net/src/server/mod.rs: the HTTP CONNECT side of `accept`, and `accept`. The base64
-- decoder is a parameter.
pub mod Accept
pub mod Authenticated
pub mod Delimiter
pub mod Header
mod Tests
use resocks.Address.{is_some_host_port}
use resocks.Address
use resocks.Base.{
  ℕ, zero, suc, ◌+◌, ◌-◌, ◌*◌, Bool, true, false, not, ◌&&◌, ◌||◌, Option, none, some, List, [],
  ◌∷◌, ◌++◌, length, take, drop, ltb, ◌==◌, if◌then◌else◌,
}
use resocks.Rust.Space.{trim}
use resocks.Rust.Text.{
  Bytes, codes, bytes_eq, any, starts_with, split_once, is_ascii_control, is_ascii_whitespace,
  is_ascii_alphabetic, is_empty,
}
use resocks.Rust.Utf8.{is_utf8}
use resocks.Server.Reply.{http_error}
use resocks.Server.Socks.{ServerOptions, IncomingRequest, http, socks}
use resocks.Server.StrictHttp.{Verdict, accepted, unsupported, bad, validate, trim_ascii, is_named}
use resocks.Server.Wire.{
  Credentials, ServerError, protocol, authentication, header_too_large, closed, Wire, Run, ok, err,
  Cmd, pure, fail, ◌>>=◌, ◌>>◌, read, write_all, flush, authenticate, phase, send,
}

abbrev pub max_header_bytes : ℕ
max_header_bytes = 16 * 1024

-- The statuses that are used have their bytes.
abbrev error_bytes : Option Bytes → Bytes
error_bytes none = []
error_bytes (some s) = s

abbrev pub http_fail : {A : Type 0} → ℕ → ServerError → Cmd A
http_fail status e = send (error_bytes (http_error status)) >> fail e

abbrev plus_one : Option ℕ → Option ℕ
plus_one none = none
plus_one (some n) = some (suc n)

abbrev pub delimiter : Bytes
delimiter = 13 ∷ 10 ∷ 13 ∷ 10 ∷ []

-- `windows(4).position(|w| w == b"\r\n\r\n")`.
pub find_end : Bytes → Option ℕ
find_end [] = none
find_end (x ∷ xs) = if starts_with delimiter (x ∷ xs) then some 0 else plus_one (find_end xs)

-- The read loop, which gives the header's end and the buffer. An iteration is at least one await, so
-- the loop runs as often as awaits are left; then the read is cut short.
pub header_loop : ℕ → Bytes → Cmd (ℕ × Bytes)
unfolding find_end
header_loop zero buf = λ w. err w.cut w
header_loop (suc polls) buf = do
  s ← read 1024
  if is_empty s then fail closed else (do
    let scan_from = length buf - 3
    let buf' = buf ++ s
    let rest = header_loop polls buf'
    elim (find_end (drop scan_from buf')) [
      | some pos ↦
          if ltb max_header_bytes (scan_from + pos + 4)
          then http_fail 431 header_too_large
          else pure (scan_from + pos + 4, buf')
      | none ↦ if ltb max_header_bytes (length buf') then http_fail 431 header_too_large else rest
    ])

pub read_header : Bytes → Cmd (ℕ × Bytes)
unfolding header_loop
read_header buf w = header_loop w.polls buf w

-- `ByteLines`, with the bytes seen of the current line.
pub byte_lines : Bytes → Bytes → List Bytes
byte_lines seen [] = if is_empty seen then [] else seen ∷ []
byte_lines seen (x ∷ []) = (seen ++ x ∷ []) ∷ []
byte_lines seen (x ∷ y ∷ xs) =
    let rest = byte_lines [] xs in
    let longer = byte_lines (seen ++ x ∷ []) (y ∷ xs) in
    if (x == 13) && (y == 10) then seen ∷ rest else longer

abbrev first_line : List Bytes → Bytes
first_line [] = []
first_line (line ∷ lines) = line

abbrev other_lines : List Bytes → List Bytes
other_lines [] = []
other_lines (line ∷ lines) = lines

-- `splitn(2, ' ')`, with "" for a part that is missing.
abbrev before_space : Option (Bytes × Bytes) → Bytes → Bytes
before_space none s = s
before_space (some (a, _)) s = a

abbrev behind_space : Option (Bytes × Bytes) → Bytes
behind_space none = []
behind_space (some (_, b)) = b

pub record RequestLine : Type 0 where
  pub method : Bytes
  pub target : Bytes
  pub version : Bytes

-- `splitn(3, ' ')`.
pub split_line : Bytes → RequestLine
split_line line =
    let rest = behind_space (split_once b' ' line) in
    record {
      method = before_space (split_once b' ' line) line;
      target = before_space (split_once b' ' rest) rest;
      version = behind_space (split_once b' ' rest);
    }

-- The value of the first Proxy-Authorization header.
pub find_auth : List Bytes → Option Bytes
find_auth [] = none
find_auth (line ∷ lines) =
    let rest = find_auth lines in
    elim (split_once b':' line) [
      | none ↦ rest
      | some (name, value) ↦
          if is_named (codes "proxy-authorization") (trim_ascii name)
          then some (trim_ascii value)
          else rest
    ]

-- The token of a `Basic` value.
pub basic_token : Bytes → Option Bytes
basic_token value = elim (split_once b' ' value) [
  | none ↦ none
  | some (scheme, token) ↦ if is_named (codes "basic") scheme then some (trim token) else none
]

-- User and password of a value, as far as the checks before the capability go.
pub decode_value : (Bytes → Option Bytes) → Bytes → Option (Bytes × Bytes)
unfolding basic_token
decode_value decode64 value = if not (is_utf8 value) then none else elim (basic_token value) [
  | none ↦ none
  | some token ↦ elim (decode64 token) [
    | none ↦ none
    | some text ↦ if not (is_utf8 text) then none else split_once b':' text
  ]
]

abbrev pub utf8_credentials : Bytes → Bytes → Credentials
utf8_credentials user password = record {
  username = user;
  password = password;
  username_raw = none;
  password_raw = none;
}

pub authorize :
    ServerOptions
    → (Credentials → Bool)
    → (Bytes → Option Bytes)
    → Option Bytes
    → Cmd (Option Credentials)
unfolding decode_value
authorize o verify decode64 none =
    if not o.anonymous then http_fail 407 authentication else pure none
authorize o verify decode64 (some value) = elim (decode_value decode64 value) [
  | none ↦ http_fail 407 authentication
  | some (user, password) ↦ if not o.password then http_fail 407 authentication else (do
    let credentials = utf8_credentials user password
    granted ← authenticate verify credentials
    if not granted then http_fail 407 authentication else pure (some credentials))
]

-- The checks of the request line, in order; `none` passes.
pub line_error : RequestLine → Option ℕ
line_error r =
    if is_empty r.method || is_empty r.target || not (starts_with (codes "HTTP/") r.version)
    then some 400
    else if not (bytes_eq r.method (codes "CONNECT"))
    then some 501
    else if any (λ b. is_ascii_control b || is_ascii_whitespace b) r.target
    then some 400
    else if not (is_some_host_port (Address.parse r.target))
    then some 400
    else none

-- The status that answers a strict violation.
abbrev pub strict_error : Verdict → Option ℕ
strict_error accepted = none
strict_error unsupported = some 505
strict_error (bad reason) = some 400

abbrev or_status : Option ℕ → Option ℕ → Option ℕ
or_status none b = b
or_status (some a) b = some a

-- Every check between the header's end and the search for credentials.
pub request_error : ServerOptions → Bytes → List Bytes → Option ℕ
unfolding line_error split_line
request_error o line headers =
    if not (is_utf8 line)
    then some 400
    else or_status (if o.strict_http then strict_error (validate line headers) else none)
        (line_error (split_line line))

abbrev username_of : Option Credentials → Option Bytes
username_of none = none
username_of (some c) = some c.username

abbrev pub incoming : ServerOptions → Option Credentials → Bytes → Bytes → IncomingRequest
incoming o verified target pipeline = record {
  protocol = http;
  target = target;
  username = username_of verified;
  username_raw = none;
  credentials = if o.retain_credentials then verified else none;
  pipeline = pipeline;
}

-- From the header on: the request line, the other lines, and the bytes behind the header.
pub respond :
    ServerOptions
    → (Credentials → Bool)
    → (Bytes → Option Bytes)
    → Bytes
    → List Bytes
    → Bytes
    → Cmd IncomingRequest
unfolding request_error find_auth authorize
respond o verify decode64 line headers pipeline = elim (request_error o line headers) [
  | some status ↦ http_fail status protocol
  | none ↦ do
    verified ← authorize o verify decode64 (find_auth headers)
    pure (incoming o verified (split_line line).target pipeline)
]

pub http_request :
    ServerOptions → (Credentials → Bool) → (Bytes → Option Bytes) → ℕ → Cmd IncomingRequest
unfolding read_header byte_lines respond
http_request o verify decode64 first = do
  (end, buf) ← read_header (first ∷ [])
  let lines = byte_lines [] (take (end - 4) buf)
  respond o verify decode64 (first_line lines) (other_lines lines) (drop end buf)

abbrev pub first_byte : Cmd ℕ
first_byte = do s ← read 1; if is_empty s then fail closed else pure (byte s)
  where
    byte : Bytes → ℕ
    byte [] = 0
    byte (x ∷ xs) = x

pub accept : ServerOptions → (Credentials → Bool) → (Bytes → Option Bytes) → Cmd IncomingRequest
unfolding http_request
accept o verify decode64 = do
  first ← phase first_byte
  if first == 5
      then phase (socks o verify)
      else if is_ascii_alphabetic first
      then phase (http_request o verify decode64 first)
      else fail protocol
