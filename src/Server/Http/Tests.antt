-- ===== src/Server/Http/Tests.antt =====
-- HTTP CONNECT handshakes on concrete bytes.
use resocks.Address
use resocks.Base.{◌≡◌, refl, Bool, true, false, Option, none, [], ◌∷◌, ◌++◌}
use resocks.Rust.Number.{parse_unsigned}
use resocks.Rust.Text.{
  Bytes, codes, starts_with, split_once, rsplit_once, bytes_eq, any, contains, is_ascii_control,
  is_ascii_whitespace, is_ascii_alphabetic, is_ascii_digit,
}
use resocks.Rust.Utf8.{is_utf8}
use resocks.Server.Http.Accept.{LetIn, accept-authenticates}
use resocks.Server.Http.Authenticated.{Served, http_request-serves}
use resocks.Server.Http.Header.{Found, read_header-Found}
use resocks.Server.Http.{read_header, header_loop, find_end, http_request, accept}
use resocks.Server.Socks.{ServerOptions, IncomingRequest, http}
use resocks.Server.Wire.{Credentials, deadline, Wire, ok, read, phase}

abbrev open_options : ServerOptions
open_options = record {
  anonymous = true;
  password = false;
  retain_credentials = false;
  raw_credentials = false;
  strict_http = false;
}

abbrev nobody : Credentials → Bool
nobody c = false

abbrev no_decoder : Bytes → Option Bytes
no_decoder s = none

abbrev rest_of_header : Bytes
rest_of_header = codes "ONNECT a.b:80 HTTP/1.1" ++ 13 ∷ 10 ∷ 13 ∷ 10 ∷ []

-- Three reads: the second ends inside the delimiter, and the third takes a byte of payload.
abbrev client : Wire
client = record {
  input = rest_of_header ++ 7 ∷ 8 ∷ [];
  arrivals = 19 ∷ 3 ∷ 2 ∷ [];
  log = [];
  polls = 50;
  cut = deadline;
}

abbrev served : Wire
served = record { input = 8 ∷ []; arrivals = []; log = []; polls = 47; cut = deadline }

header_read : read_header (b'C' ∷ []) client ≡ ok (27, b'C' ∷ rest_of_header ++ 7 ∷ []) served
unfolding read_header header_loop find_end read starts_with
header_read = refl

read_header-Found_example :
    Found (b'C' ∷ client.input) [] (27, b'C' ∷ rest_of_header ++ 7 ∷ []) served
read_header-Found_example =
    read_header-Found b'C' 27 (b'C' ∷ rest_of_header ++ 7 ∷ []) client served header_read

abbrev connect : IncomingRequest
connect = record {
  protocol = http;
  target = codes "a.b:80";
  username = none;
  username_raw = none;
  credentials = none;
  pipeline = 7 ∷ [];
}

request_read : http_request open_options nobody no_decoder b'C' client ≡ ok connect served
unfolding http_request read starts_with is_utf8 split_once bytes_eq any is_ascii_control
    is_ascii_whitespace Address.parse parse_unsigned rsplit_once contains is_ascii_digit
request_read = refl

http_request-serves_example : Served open_options nobody no_decoder b'C' client connect served
http_request-serves_example =
    http_request-serves open_options nobody no_decoder b'C' client served connect request_read

abbrev new_client : Wire
new_client = record client {
  input = b'C' ∷ client.input;
  arrivals = 0 ∷ client.arrivals;
  polls = 51;
}

request_accepted : accept open_options nobody no_decoder new_client ≡ ok connect served
unfolding accept phase read starts_with is_utf8 split_once bytes_eq any is_ascii_control
    is_ascii_whitespace is_ascii_alphabetic Address.parse parse_unsigned rsplit_once contains
    is_ascii_digit
request_accepted = refl

accept-authenticates_example : LetIn open_options nobody no_decoder new_client connect served
accept-authenticates_example =
    accept-authenticates open_options nobody no_decoder new_client served connect request_accepted
