-- ===== src/Server/Socks/Tests.antt =====
-- SOCKS5 handshakes on concrete bytes.
use resocks.Address
use resocks.Server.Socks.Serves.{client_bytes, Done, socks-serves}
use resocks.Base.{◌*◌, ◌+◌, arith, ◌≡◌, refl, ◌⊎◌, Bool, true, false, none, some, [], ◌∷◌, ◌++◌}
use resocks.Rust.Ip.{display_ipv4}
use resocks.Rust.Number.{decimal, parse_unsigned}
use resocks.Rust.Text.{
  Bytes, codes, bytes_eq, contains, rsplit_once, is_ascii_digit, any, is_ascii_control,
  is_ascii_whitespace, starts_with,
}
use resocks.Rust.Utf8.{is_utf8}
use resocks.Server.Reply.{established, reply_bytes, success_prefix, reply_bytes-success}
use resocks.Server.Socks.Authenticated.{Anonymous, Verified, socks-authenticates}
use resocks.Server.Socks.{
  ServerOptions, IncomingRequest, socks5, bad_domain, choose, decode, subnegotiate, verify_fields,
  request, read_target, socks,
}
use resocks.Server.Wire.{
  Credentials, deadline, wrote, asked, Wire, ok, poll, read_exact, write_all, authenticate,
}

abbrev options : ServerOptions
options = record {
  anonymous = true;
  password = true;
  retain_credentials = true;
  raw_credentials = false;
  strict_http = false;
}

abbrev only_anna : Credentials → Bool
only_anna c = bytes_eq c.username (codes "anna")

-- Two methods, the user `anna` with the password `x`, and CONNECT to 10.0.0.1 on port 443; then
-- the payload's first byte.
abbrev sent : Bytes
sent =
    2 ∷ 0 ∷ 2 ∷ 1 ∷ 4 ∷ codes "anna" ++ 1 ∷ b'x' ∷ 5 ∷ 1 ∷ 0 ∷ 1 ∷ 10 ∷ 0 ∷ 0 ∷ 1 ∷ 1 ∷ 187 ∷ 9 ∷ []

abbrev before : Wire
before = record { input = sent; arrivals = []; log = []; polls = 100; cut = deadline }

abbrev anna : Credentials
anna = record {
  username = codes "anna";
  password = codes "x";
  username_raw = none;
  password_raw = none;
}

abbrev after : Wire
after = record {
  input = 9 ∷ [];
  arrivals = [];
  log = wrote (1 ∷ 0 ∷ []) ∷ asked anna ∷ wrote (5 ∷ 2 ∷ []) ∷ [];
  polls = 86;
  cut = deadline;
}

abbrev connect : IncomingRequest
connect = record {
  protocol = socks5;
  target = codes "10.0.0.1:443";
  username = some (codes "anna");
  username_raw = none;
  credentials = some anna;
  pipeline = [];
}

handshake_succeeds : socks options only_anna before ≡ ok connect after
unfolding socks choose subnegotiate verify_fields decode request read_target poll read_exact
    write_all authenticate is_utf8 decimal display_ipv4 contains bytes_eq
handshake_succeeds = refl

socks-authenticates_example :
    Anonymous options only_anna before connect after
    ⊎ Verified options only_anna before connect after
socks-authenticates_example =
    socks-authenticates options only_anna before after connect handshake_succeeds

abbrev domain_client : Wire
domain_client = record {
  input =
      client_bytes 0 (codes "a.b") 0 80 (9 ∷ []) options only_anna (codes "anna") (codes "x")
        (2 ∷ []);
  arrivals = [];
  log = [];
  polls = 15;
  cut = deadline;
}

domain_is_good : bad_domain (codes "a.b") (0 * 256 + 80) ≡ false
unfolding bad_domain Address.parse decimal parse_unsigned rsplit_once contains is_ascii_digit any
    is_ascii_control is_ascii_whitespace
domain_is_good = refl

socks-serves_example :
    (r : IncomingRequest) × (w' : Wire) × (socks options only_anna domain_client ≡ ok r w')
    × Done 0 (codes "a.b") 0 80 (9 ∷ []) options only_anna (codes "anna") (codes "x") r w'
unfolding is_utf8 contains bytes_eq
socks-serves_example =
    socks-serves 0 (codes "a.b") 0 80 (9 ∷ []) options only_anna (codes "anna") (codes "x") (2 ∷ [])
      domain_client refl (omega arith) refl (omega arith) (omega arith) refl refl refl refl
      domain_is_good

reply_bytes-success_example :
    (s : Bytes) × (reply_bytes socks5 established ≡ some s)
    × (starts_with (success_prefix socks5) s ≡ true)
reply_bytes-success_example = reply_bytes-success socks5 established
