-- ===== src/Server/StrictHttp/Request.antt =====
-- strict_http.rs: what an accepted request is.
use resocks.Base.{◌≤◌, ◌≡◌, true, List}
use resocks.Rust.Text.{Bytes, codes, bytes_eq}
use resocks.Server.StrictHttp.Counts.{occurrences}

-- At most one Host and one Proxy-Authorization header, and in HTTP/1.1 exactly one Host.
pub record IsUnambiguous (version : Bytes) (headers : List Bytes) : Type 0 where
  pub one_host : occurrences (codes "host") headers ≤ 1
  pub host_given :
      bytes_eq version (codes "HTTP/1.1") ≡ true → occurrences (codes "host") headers ≡ 1
  pub one_auth : occurrences (codes "proxy-authorization") headers ≤ 1
