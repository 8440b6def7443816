-- ===== src/Server/StrictHttp/Tests.antt =====
-- The strict check on a concrete request.
use resocks.Base.{List, [], ◌∷◌}
use resocks.Rust.Text.{Bytes, codes}

abbrev request_line : Bytes
request_line = codes "CONNECT example.com:443 HTTP/1.1"

abbrev header_lines : List Bytes
header_lines = codes "Host: example.com:443" ∷ codes "Accept: a" ∷ []
