-- ===== src/Proxy/Line/RoundTrip.antt =====
-- parse_proxy_str.rs: a line written in the documented form is read back.
use resocks.Address.RoundTrip.{IsAddress, parse-format, format-at}
use resocks.Address.{HostPort}
use resocks.Address
use resocks.Base.{
  ℕ, zero, suc, ◌≤◌, ◌≡◌, refl, ap, Bool, true, false, ◌&&◌, Option, none, some, [], ◌∷◌, ◌++◌, ltb,
  arith,
}
use resocks.Rust.Space.{is_blank, is_blank-marker}
use resocks.Rust.Text.{
  Bytes, contains, contains-append, is_empty, split_once-append, split_once-absent,
  starts_with_byte,
}
use resocks.Proxy.{ProxyProtocol, new}
use resocks.Proxy.Line.Accepts.{strip_brackets-IsAddress}
use resocks.Proxy.Line.{
  ok, finish, with_credentials, count_markers, behind_markers, parse_proxy_str,
}

abbrev pub markers : ℕ → Bytes → Bytes
markers zero s = s
markers (suc n) s = b'*' ∷ markers n s

-- `user:pass@host:port`, or `host:port` when there are no credentials.
abbrev pub line_text : Option (Bytes × Bytes) → Bytes → ℕ → Bytes
line_text none host port = Address.format host port
line_text (some (user, password)) host port =
    (user ++ b':' ∷ password) ++ b'@' ∷ Address.format host port

abbrev pub user_of : Option (Bytes × Bytes) → Option Bytes
user_of none = none
user_of (some (user, _)) = some user

abbrev pub password_of : Option (Bytes × Bytes) → Option Bytes
password_of none = none
password_of (some (_, password)) = some password

-- A user name that ends at the `:` behind it, and a password without `@`.
abbrev pub IsSeparable : Option (Bytes × Bytes) → Type 0
IsSeparable none = Unit
IsSeparable (some (user, password)) =
    (contains b':' user ≡ false) × (contains b'@' user ≡ false) × (contains b'@' password ≡ false)

-- A text that the markers can stand in front of, or that can stand alone.
pub record IsUnmarked (s : Bytes) : Type 0 where
  pub not_blank : is_blank s ≡ false
  pub not_comment : starts_with_byte b'#' s ≡ false
  pub no_marker : starts_with_byte b'*' s ≡ false
  pub nonempty : is_empty s ≡ false

finish-format :
    (protocol : ProxyProtocol) (level : ℕ) (user password : Option Bytes) (host : Bytes) (port : ℕ)
    → IsAddress host port
    → finish protocol level user password (Address.format host port)
      ≡ ok (record {
        protocol = protocol;
        host = host;
        port = port;
        user = user;
        password = password;
        gate_level = level;
        is_gate = ltb 0 level;
      })
unfolding finish new
finish-format protocol level user password host port a =
    rw (parse-format host port a, finish) (rw (strip_brackets-IsAddress host port a))

count_markers-markers :
    (n : ℕ) (s : Bytes) → starts_with_byte b'*' s ≡ false → count_markers (markers n s) ≡ n
unfolding count_markers
count_markers-markers zero [] h = refl
count_markers-markers zero (x ∷ s) h = rw h
count_markers-markers (suc n) s h = ap suc (count_markers-markers n s h)

behind_markers-markers :
    (n : ℕ) (s : Bytes) → starts_with_byte b'*' s ≡ false → behind_markers (markers n s) ≡ s
unfolding behind_markers
behind_markers-markers zero [] h = refl
behind_markers-markers zero (x ∷ s) h = rw h
behind_markers-markers (suc n) s h = behind_markers-markers n s h

with_credentials-line_text :
    (protocol : ProxyProtocol) (level : ℕ) (creds : Option (Bytes × Bytes)) (host : Bytes)
    (port : ℕ)
    → IsAddress host port
    → contains b'@' host ≡ false
    → IsSeparable creds
    → with_credentials protocol level (line_text creds host port)
      ≡ ok (record {
        protocol = protocol;
        host = host;
        port = port;
        user = user_of creds;
        password = password_of creds;
        gate_level = level;
        is_gate = ltb 0 level;
      })
unfolding with_credentials contains
with_credentials-line_text protocol level none host port a h v =
    rw (split_once-absent b'@' (Address.format host port) (format-at host port h), with_credentials)
      (finish-format protocol level none none host port a)
with_credentials-line_text protocol level (some (user, password)) host port a h (c, u, p) =
    rw
      (
        split_once-append b'@' (user ++ b':' ∷ password) (Address.format host port)
            (rw (contains-append b'@' user (b':' ∷ password), u) p),
        with_credentials,
      )
      (rw (format-at host port h, split_once-append b':' user password c, with_credentials)
        (finish-format protocol level (some user) (some password) host port a))

markers-not_blank : (n : ℕ) (s : Bytes) → IsUnmarked s → is_blank (markers n s) ≡ false
markers-not_blank zero s v = v.not_blank
markers-not_blank (suc n) s v = is_blank-marker (markers n s)

markers-not_comment :
    (n : ℕ) (s : Bytes) → IsUnmarked s → starts_with_byte b'#' (markers n s) ≡ false
markers-not_comment zero s v = v.not_comment
markers-not_comment (suc n) s v = refl

few_markers : (level : ℕ) → level ≤ 255 → ltb 255 level ≡ false
few_markers level l = ground arith

and_false : (b : Bool) → (b && false) ≡ false
and_false true = refl
and_false false = refl

-- A line of at most 255 markers, then credentials whose user has no `:` and which have no `@`, if
-- any, then a formatted address whose host has no `@`, is read as the upstream with exactly this
-- address, these credentials and this gate level, provided that what stands behind the markers is
-- not blank and begins with neither a `#` nor another marker.
pub parse_proxy_str-line_text :
    (protocol : ProxyProtocol) (level : ℕ) (creds : Option (Bytes × Bytes)) (host : Bytes)
    (port : ℕ)
    → level ≤ 255
    → IsAddress host port
    → contains b'@' host ≡ false
    → IsSeparable creds
    → IsUnmarked (line_text creds host port)
    → parse_proxy_str (markers level (line_text creds host port)) protocol
      ≡ ok (record {
        protocol = protocol;
        host = host;
        port = port;
        user = user_of creds;
        password = password_of creds;
        gate_level = level;
        is_gate = ltb 0 level;
      })
unfolding parse_proxy_str
parse_proxy_str-line_text protocol level creds host port l a h v u =
    let text = line_text creds host port in
    rw
      (
        markers-not_blank level text u,
        markers-not_comment level text u,
        count_markers-markers level text u.no_marker,
        behind_markers-markers level text u.no_marker,
        u.nonempty,
        few_markers level l,
        and_false (ltb 0 level),
      )
      (with_credentials-line_text protocol level creds host port a h v)
