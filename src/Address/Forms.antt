-- ===== src/Address/Forms.antt =====
-- host_port.rs: the two forms that `parse` accepts, from their parts.
use resocks.Address.{with_port, parse_bracketed, parse_bare, parse}
use resocks.Base.{ℕ, ◌≡◌, refl, true, false, none, some}
use resocks.Rust.Net.{is_ipv6}
use resocks.Rust.Number.{parse_u16}
use resocks.Rust.Text.{Bytes, contains, is_empty, split_once, rsplit_once, strip_prefix}

pub parse-of_bracketed :
    (s rest host after port : Bytes) (n : ℕ)
    → strip_prefix b'[' s ≡ some rest
    → split_once b']' rest ≡ some (host, after)
    → is_ipv6 host ≡ true
    → strip_prefix b':' after ≡ some port
    → parse_u16 port ≡ some n
    → parse s ≡ some (record { host = host; port = n })
unfolding parse
parse-of_bracketed s rest host after port n e split v found read =
    rw (e, parse) (rw (split, parse_bracketed) (rw (v, found) (rw (read, with_port) refl)))

pub parse-of_bare :
    (s host port : Bytes) (n : ℕ)
    → strip_prefix b'[' s ≡ none
    → rsplit_once b':' s ≡ some (host, port)
    → is_empty host ≡ false
    → contains b':' host ≡ false
    → parse_u16 port ≡ some n
    → parse s ≡ some (record { host = host; port = n })
unfolding parse
parse-of_bare s host port n e split nonempty plain read =
    rw (e, parse) (rw (split, parse_bare) (rw (plain, nonempty) (rw (read, with_port) refl)))
