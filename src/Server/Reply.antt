-- ===== src/Server/Reply.antt =====
-- crates/resocks5-net/src/server/reply.rs: the wire bytes of the replies.
use resocks.Base.{
  ℕ, ◌≡◌, refl, Bool, true, false, Option, none, some, [], ◌∷◌, ◌++◌, ◌==◌, if◌then◌else◌,
}
use resocks.Rust.Text.{Bytes, codes, starts_with}
use resocks.Server.Socks.{Protocol, socks5, http}

pub data Reply : Type 0 where
  established forbidden upstream_unavailable connection_refused : Reply
  network_unreachable timed_out general_failure overloaded : Reply

abbrev crlf : Bytes
crlf = 13 ∷ 10 ∷ []

abbrev status_line : Bytes → Bytes
status_line s = codes "HTTP/1.1 " ++ s ++ crlf

abbrev closing : Bytes
closing = codes "Connection: close" ++ crlf ++ codes "Content-Length: 0" ++ crlf ++ crlf

abbrev resp_407 : Bytes
resp_407 =
    status_line (codes "407 Proxy Authentication Required")
    ++ codes "Proxy-Authenticate: Basic realm=\"resocks5\", charset=\"UTF-8\""
    ++ crlf
    ++ closing

-- `none` is `unreachable!`.
pub http_error : ℕ → Option Bytes
http_error status =
    if status == 400
    then some (status_line (codes "400 Bad Request") ++ closing)
    else if status == 403
    then some (status_line (codes "403 Forbidden") ++ closing)
    else if status == 407
    then some resp_407
    else if status == 431
    then some (status_line (codes "431 Request Header Fields Too Large") ++ closing)
    else if status == 501
    then some (status_line (codes "501 Not Implemented") ++ closing)
    else if status == 502
    then some (status_line (codes "502 Bad Gateway") ++ closing)
    else if status == 503
    then some (status_line (codes "503 Service Unavailable") ++ closing)
    else if status == 504
    then some (status_line (codes "504 Gateway Timeout") ++ closing)
    else if status == 505
    then some (status_line (codes "505 HTTP Version Not Supported") ++ closing)
    else none

abbrev socks_reply : ℕ → Bytes
socks_reply code = 5 ∷ code ∷ 0 ∷ 1 ∷ 0 ∷ 0 ∷ 0 ∷ 0 ∷ 0 ∷ 0 ∷ []

pub reply_bytes : Protocol → Reply → Option Bytes
unfolding http_error
reply_bytes socks5 established = some (socks_reply 0)
reply_bytes socks5 forbidden = some (socks_reply 2)
reply_bytes socks5 upstream_unavailable = some (socks_reply 4)
reply_bytes socks5 connection_refused = some (socks_reply 5)
reply_bytes socks5 network_unreachable = some (socks_reply 3)
reply_bytes socks5 timed_out = some (socks_reply 6)
reply_bytes socks5 general_failure = some (socks_reply 1)
reply_bytes socks5 overloaded = some (socks_reply 1)
reply_bytes http established = some (status_line (codes "200 Connection Established") ++ crlf)
reply_bytes http forbidden = http_error 403
reply_bytes http upstream_unavailable = http_error 502
reply_bytes http connection_refused = http_error 502
reply_bytes http network_unreachable = http_error 502
reply_bytes http timed_out = http_error 504
reply_bytes http general_failure = http_error 502
reply_bytes http overloaded = http_error 503

abbrev pub is_established : Reply → Bool
is_established established = true
is_established _ = false

-- What a client takes for success: SOCKS5 reply code 0, and an HTTP status of 200.
abbrev pub success_prefix : Protocol → Bytes
success_prefix socks5 = 5 ∷ 0 ∷ []
success_prefix http = codes "HTTP/1.1 200 "

-- Every reply has its wire bytes, and on both protocols they announce success exactly when the
-- reply is `Established`.
pub reply_bytes-success :
    (p : Protocol) (r : Reply)
    → (s : Bytes) × (reply_bytes p r ≡ some s)
      × (starts_with (success_prefix p) s ≡ is_established r)
unfolding reply_bytes starts_with
reply_bytes-success socks5 established = (_, refl, refl)
reply_bytes-success socks5 forbidden = (_, refl, refl)
reply_bytes-success socks5 upstream_unavailable = (_, refl, refl)
reply_bytes-success socks5 connection_refused = (_, refl, refl)
reply_bytes-success socks5 network_unreachable = (_, refl, refl)
reply_bytes-success socks5 timed_out = (_, refl, refl)
reply_bytes-success socks5 general_failure = (_, refl, refl)
reply_bytes-success socks5 overloaded = (_, refl, refl)
reply_bytes-success http established = (_, refl, refl)
reply_bytes-success http forbidden = (_, refl, refl)
reply_bytes-success http upstream_unavailable = (_, refl, refl)
reply_bytes-success http connection_refused = (_, refl, refl)
reply_bytes-success http network_unreachable = (_, refl, refl)
reply_bytes-success http timed_out = (_, refl, refl)
reply_bytes-success http general_failure = (_, refl, refl)
reply_bytes-success http overloaded = (_, refl, refl)
