-- ===== src/Rotator/Slots/Identity.antt =====
-- `same_upstream` is the equality of what is hashed.
use resocks.Base.{◌≡◌, refl, ap, true, Option, none, some, arith}
use resocks.Proxy.Chain.Identity.{option_eq}
use resocks.Proxy.{ProxyConfig, own}
use resocks.Rotator.Slots.{same_upstream, identity}
use resocks.Rust.Text.{Bytes, bytes_eq_refl, bytes_eq_sound}

option_eq_sound : (a b : Option Bytes) → option_eq a b ≡ true → a ≡ b
unfolding option_eq
option_eq_sound none none h = refl
option_eq_sound (some a) (some b) h = ap some (bytes_eq_sound a b h)
option_eq_sound none (some b) h = cc
option_eq_sound (some a) none h = cc

option_eq_refl : (a : Option Bytes) → option_eq a a ≡ true
unfolding option_eq
option_eq_refl none = refl
option_eq_refl (some a) = bytes_eq_refl a

pub same_upstream-identity :
    (a b : ProxyConfig) → same_upstream a b ≡ true → identity a ≡ identity b
unfolding same_upstream
same_upstream-identity a b h = ground (
  arith,
  bytes_eq_sound (own a).host (own b).host,
  option_eq_sound (own a).user (own b).user,
  option_eq_sound (own a).password (own b).password,
)

pub identity-same_upstream :
    (a b : ProxyConfig) → identity a ≡ identity b → same_upstream a b ≡ true
unfolding same_upstream
identity-same_upstream a b h = ground (
  arith,
  bytes_eq_refl (own a).host,
  option_eq_refl (own a).user,
  option_eq_refl (own a).password,
)
