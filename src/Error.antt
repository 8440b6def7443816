-- ===== src/Error.antt =====
-- crates/resocks5-net/src/error: the errors of a connect attempt, and which of them speak against the
-- upstream (classify.rs). Built with the features `tls` and `pool`; texts and causes are left out.
use resocks.Base.{ℕ, Bool, true, false, Option}
use resocks.Proxy.{ProxyProtocol}

pub data Stage : Type 0 where
  connect handshake total : Stage

pub data TimeoutKind : Type 0 where
  tcp_connect socks5_handshake http_handshake : TimeoutKind
  https_tls_handshake https_connect_handshake total_budget : TimeoutKind

pub data ProtocolViolation : Type 0 where
  socks5_bad_version socks5_bad_auth_version socks5_unknown_address_type : ℕ → ProtocolViolation
  socks5_bad_reserved : ℕ → ProtocolViolation
  socks5_empty_bound_domain : ProtocolViolation
  socks5_domain_too_long : ℕ → ProtocolViolation
  socks5_credentials_too_long : ℕ → ℕ → ProtocolViolation
  http_invalid_connect_target http_response_too_large http_closed_early : ProtocolViolation

pub data ConnectError : Type 0 where
  timeout : Stage → TimeoutKind → ConnectError
  io : Stage → ConnectError
  proxy_rejected : ProxyProtocol → Option ℕ → ConnectError
  auth_failed : ℕ → ConnectError
  method_unsupported : ℕ → Bool → ConnectError
  protocol : ProtocolViolation → ConnectError
  invalid_target tls_feature_missing tls at_capacity : ConnectError

unfoldable pub is_upstream_down : ConnectError → Bool
is_upstream_down (timeout stage tcp_connect) = true
is_upstream_down (timeout stage https_tls_handshake) = true
is_upstream_down (io connect) = true
is_upstream_down (auth_failed status) = true
is_upstream_down (method_unsupported got with_auth) = true
is_upstream_down (protocol (socks5_bad_version got)) = true
is_upstream_down (protocol (socks5_bad_auth_version got)) = true
is_upstream_down tls = true
is_upstream_down _ = false

unfoldable pub counts_against_upstream : ConnectError → Bool
counts_against_upstream at_capacity = false
counts_against_upstream _ = true
