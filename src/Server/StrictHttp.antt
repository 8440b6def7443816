-- ===== src/Server/StrictHttp.antt =====
-- crates/resocks5-net/src/server/strict_http.rs: the strict check of an HTTP CONNECT request.
pub mod Accepts
pub mod Counts
pub mod Request
mod Tests
use resocks.Base.{
  ℕ, zero, suc, ◌+◌, Bool, true, false, not, ◌&&◌, ◌||◌, Option, none, some, List, [], ◌∷◌, length,
  map, ltb, leb, ◌==◌, if◌then◌else◌,
}
use resocks.Rust.Net.{is_ipv6}
use resocks.Rust.Number.{parse_unsigned}
use resocks.Rust.Text.{
  Bytes, codes, bytes_eq, contains, is_empty, starts_with_byte, starts_with, strip_prefix,
  split_once, rsplit_once, any, all, is_ascii_digit, is_ascii_alphanumeric, is_ascii_hexdigit,
  is_ascii_control, is_ascii_whitespace, to_ascii_lowercase,
}
use resocks.Rust.Utf8.{is_utf8}

-- The reasons are fixed texts; a constructor stands for each.
pub data Reason : Type 0 where
  request_line http_version bare_ipv6 not_ipv6 no_port no_host bad_host bad_port : Reason
  folding no_colon no_name space_before_colon bad_name bad_value : Reason
  missing_host duplicate_host empty_host invalid_host duplicate_auth : Reason

pub data Verdict : Type 0 where
  accepted unsupported : Verdict
  bad : Reason → Verdict

is_tchar : ℕ → Bool
is_tchar c = is_ascii_alphanumeric c || contains c (codes "!#$%&'*+-.^_`|~")

is_authority_host_byte : ℕ → Bool
is_authority_host_byte c = is_ascii_alphanumeric c || contains c (codes "-._~!$&'()*+,;=")

pub valid_authority_host : Bytes → Bool
unfolding is_authority_host_byte
valid_authority_host [] = true
valid_authority_host (c ∷ []) = not (c == b'%') && is_authority_host_byte c
valid_authority_host (c ∷ d ∷ []) =
    not (c == b'%') && is_authority_host_byte c && valid_authority_host (d ∷ [])
valid_authority_host (c ∷ d ∷ e ∷ rest) =
    let escaped = valid_authority_host rest in
    let plain = valid_authority_host (d ∷ e ∷ rest) in
    if c == b'%'
    then is_ascii_hexdigit d && is_ascii_hexdigit e && escaped
    else is_authority_host_byte c && plain

pub valid_port_digits : Bytes → Bool
valid_port_digits port = not (is_empty port) && leb (length port) 5 && all is_ascii_digit port

pub valid_host_value : Bytes → Bool
unfolding valid_authority_host valid_port_digits
valid_host_value value = elim (strip_prefix b'[' value) [
  | some rest ↦ elim (split_once b']' rest) [
    | none ↦ false
    | some (inside, after) ↦
        if not (is_ipv6 inside) then false else elim (strip_prefix b':' after) [
          | some port ↦ valid_port_digits port
          | none ↦ is_empty after
        ]
  ]
  | none ↦ elim (split_once b':' value) [
    | some (host, port) ↦ not (is_empty host) && valid_authority_host host && valid_port_digits port
    | none ↦ not (is_empty value) && valid_authority_host value
  ]
]

onto_first : ℕ → List Bytes → List Bytes
onto_first x [] = (x ∷ []) ∷ []
onto_first x (p ∷ ps) = (x ∷ p) ∷ ps

-- `split(' ')`, which gives one part more than there are separators.
pub split : ℕ → Bytes → List Bytes
unfolding onto_first
split c [] = [] ∷ []
split c (x ∷ xs) = if x == c then [] ∷ split c xs else onto_first x (split c xs)

is_bad_part : Bytes → Bool
is_bad_part part = is_empty part || any (λ b. b == b'\t' || is_ascii_control b) part

-- `HTTP/` and a digit, a point and a digit.
is_version : Bytes → Bool
is_version (a ∷ b ∷ c ∷ d ∷ e ∷ major ∷ point ∷ minor ∷ []) =
    starts_with (codes "HTTP/") (a ∷ b ∷ c ∷ d ∷ e ∷ [])
    && is_ascii_digit major
    && (point == b'.')
    && is_ascii_digit minor
is_version _ = false

abbrev is_in_range : Option ℕ → Bool
is_in_range none = false
is_in_range (some port) = leb 1 port && leb port 65535

check_port : Bytes → Verdict
check_port port =
    if is_empty port || ltb 5 (length port) || not (all is_ascii_digit port)
    then bad bad_port
    else if not (is_in_range (parse_unsigned 4294967295 port))
    then bad bad_port
    else accepted

pub check_target : Bytes → Verdict
unfolding check_port valid_authority_host
check_target target = elim (strip_prefix b'[' target) [
  | some rest ↦ elim (split_once b']' rest) [
    | none ↦ bad bare_ipv6
    | some (inside, after) ↦
        if not (is_ipv6 inside)
        then bad not_ipv6
        else elim (strip_prefix b':' after) [ none ↦ bad no_port | some port ↦ check_port port ]
  ]
  | none ↦ elim (rsplit_once b':' target) [
    | none ↦ bad no_port
    | some (h, port) ↦
        if is_empty h
        then bad no_host
        else if contains b':' h
        then bad bare_ipv6
        else if not (valid_authority_host h)
        then bad bad_host
        else check_port port
  ]
]

-- The counters of the loop over the header lines.
pub record Headers : Type 0 where
  pub host_count : ℕ
  pub host_value : Option Bytes
  pub proxy_auth_count : ℕ

pub data Checked : Type 0 where
  fine : Headers → Checked
  broken : Reason → Checked

last_byte : Bytes → ℕ
last_byte [] = 0
last_byte (x ∷ []) = x
last_byte (x ∷ y ∷ xs) = last_byte (y ∷ xs)

-- `trim_ascii`.
trim_start : Bytes → Bytes
trim_start [] = []
trim_start (x ∷ xs) = if is_ascii_whitespace x then trim_start xs else x ∷ xs

trim_end : Bytes → Bytes
trim_end [] = []
trim_end (x ∷ xs) =
    let rest = trim_end xs in if is_empty rest && is_ascii_whitespace x then [] else x ∷ rest

pub trim_ascii : Bytes → Bytes
unfolding trim_start trim_end
trim_ascii s = trim_end (trim_start s)

-- `name.to_ascii_lowercase()` is this text.
pub is_named : Bytes → Bytes → Bool
is_named text name = bytes_eq (map to_ascii_lowercase name) text

count : Headers → Bytes → Bytes → Headers
unfolding is_named trim_ascii
count h name value =
    if is_named (codes "host") name
    then record h { host_count = suc h.host_count; host_value = some (trim_ascii value) }
    else if is_named (codes "proxy-authorization") name
    then record h { proxy_auth_count = suc h.proxy_auth_count }
    else h

-- What is wrong with a header line's name or value, in the order of the checks.
field_error : Bytes → Bytes → Option Reason
unfolding is_tchar last_byte
field_error name value =
    if is_empty name
    then some no_name
    else if (last_byte name == b' ') || (last_byte name == b'\t')
    then some space_before_colon
    else if not (all is_tchar name)
    then some bad_name
    else if any (λ b. ltb b 0x20 && not (b == b'\t') || b == 0x7F) value
    then some bad_value
    else none

-- One round of the loop.
pub check_line : Headers → Bytes → Checked
unfolding count field_error
check_line h line =
    if starts_with_byte b' ' line || starts_with_byte b'\t' line
    then broken folding
    else elim (split_once b':' line) [
      | none ↦ broken no_colon
      | some (name, value) ↦ elim (field_error name value) [
        | some reason ↦ broken reason
        | none ↦ fine (count h name value)
      ]
    ]

pub check_lines : Headers → List Bytes → Checked
unfolding check_line
check_lines h [] = fine h
check_lines h (line ∷ lines) = elim (check_line h line) [
  | broken reason ↦ broken reason
  | fine h' ↦ check_lines h' lines
]

abbrev is_empty_value : Option Bytes → Bool
is_empty_value none = false
is_empty_value (some value) = is_empty value

abbrev is_bad_value : Option Bytes → Bool
is_bad_value none = false
is_bad_value (some value) = not (is_utf8 value && valid_host_value value)

-- The checks behind the loop.
pub check_headers : Bytes → Headers → Verdict
unfolding valid_host_value
check_headers version h =
    if bytes_eq version (codes "HTTP/1.1") && (h.host_count == 0)
    then bad missing_host
    else if ltb 1 h.host_count
    then bad duplicate_host
    else if is_empty_value h.host_value
    then bad empty_host
    else if is_bad_value h.host_value
    then bad invalid_host
    else if ltb 1 h.proxy_auth_count
    then bad duplicate_auth
    else accepted

abbrev pub no_headers : Headers
no_headers = record { host_count = 0; host_value = none; proxy_auth_count = 0 }

abbrev and_headers : Bytes → Checked → Verdict
and_headers version (broken reason) = bad reason
and_headers version (fine h) = check_headers version h

abbrev and_lines : Verdict → Verdict → Verdict
and_lines accepted v = v
and_lines unsupported v = unsupported
and_lines (bad reason) v = bad reason

-- `validate` from the three parts of the request line on.
pub check_parts : Bytes → Bytes → Bytes → List Bytes → Verdict
unfolding is_bad_part is_version check_target check_lines check_headers
check_parts method target version headers =
    if is_bad_part method || is_bad_part target || is_bad_part version
    then bad request_line
    else if not (is_version version)
    then bad http_version
    else if not (bytes_eq version (codes "HTTP/1.0") || bytes_eq version (codes "HTTP/1.1"))
    then unsupported
    else and_lines (check_target target) (and_headers version (check_lines no_headers headers))

pub check_split : List Bytes → List Bytes → Verdict
unfolding check_parts
check_split (method ∷ target ∷ version ∷ []) headers = check_parts method target version headers
check_split _ headers = bad request_line

pub validate : Bytes → List Bytes → Verdict
unfolding split check_split
validate line headers = check_split (split b' ' line) headers
