-- ===== src/Clients.antt =====
-- crates/resocks5/src/config/allowed_clients.rs: whether a compiled rule admits an address. The
-- compiler of the rule's text is not here.
use resocks.Base.{
  ℕ, ◌+◌, ◌*◌, ◌/◌, ◌%◌, Bool, true, false, ◌&&◌, ◌||◌, Option, none, some, List, [], ◌∷◌, ◌==◌,
  if◌then◌else◌,
}
pub mod Spellings
pub mod Compile
pub mod Tests

-- The four octets, or the eight 16-bit segments.
pub data IpAddr : Type 0 where
  v4 : ℕ → ℕ → ℕ → ℕ → IpAddr
  v6 : ℕ → ℕ → ℕ → ℕ → ℕ → ℕ → ℕ → ℕ → IpAddr

-- `Mask::V4` and `Mask::V6`, whose names `IpAddr` has here; `none` is a wildcard.
pub data Mask : Type 0 where
  octets : List (Option ℕ) → Mask
  groups : List (Option ℕ) → Mask

pub data Rule : Type 0 where
  exact : IpAddr → Rule
  loopback : Rule
  mask : Mask → Rule

pub record AllowedClients : Type 0 where
  pub allow_all : Bool
  pub rules : List Rule

-- `Ipv4Addr::to_ipv6_mapped`.
abbrev pub to_ipv6_mapped : ℕ → ℕ → ℕ → ℕ → IpAddr
to_ipv6_mapped a b c d = v6 0 0 0 0 0 65535 (a * 256 + b) (c * 256 + d)

-- The first six segments of an address that `Ipv6Addr::to_ipv4_mapped` takes.
abbrev pub is_mapped : ℕ → ℕ → ℕ → ℕ → ℕ → ℕ → Bool
is_mapped s t u v w x =
    (s == 0) && ((t == 0) && ((u == 0) && ((v == 0) && ((w == 0) && (x == 65535)))))

pub normalize_mapped : IpAddr → IpAddr
normalize_mapped (v4 a b c d) = v4 a b c d
normalize_mapped (v6 s t u v w x y z) =
    if is_mapped s t u v w x then v4 (y / 256) (y % 256) (z / 256) (z % 256) else v6 s t u v w x y z

-- `segs.iter().zip(values).all(|(s, o)| s.is_none_or(|v| v == *o))`.
abbrev pub all_match : List (Option ℕ) → List ℕ → Bool
all_match (none ∷ segs) (o ∷ os) = all_match segs os
all_match (some v ∷ segs) (o ∷ os) = (v == o) && all_match segs os
all_match [] os = true
all_match (s ∷ segs) [] = true

abbrev pub segments : IpAddr → List ℕ
segments (v4 a b c d) = 0 ∷ 0 ∷ 0 ∷ 0 ∷ 0 ∷ 65535 ∷ (a * 256 + b) ∷ (c * 256 + d) ∷ []
segments (v6 s t u v w x y z) = s ∷ t ∷ u ∷ v ∷ w ∷ x ∷ y ∷ z ∷ []

-- The derived `==` of `IpAddr`.
ip_eq : IpAddr → IpAddr → Bool
ip_eq (v4 a b c d) (v4 a' b' c' d') = (a == a') && ((b == b') && ((c == c') && (d == d')))
ip_eq (v6 s t u v w x y z) (v6 s' t' u' v' w' x' y' z') =
    (s == s')
    && ((t == t')
        && ((u == u') && ((v == v') && ((w == w') && ((x == x') && ((y == y') && (z == z')))))))
ip_eq (v4 a b c d) (v6 s t u v w x y z) = false
ip_eq (v6 s t u v w x y z) (v4 a b c d) = false

-- `Ipv4Addr::is_loopback` and `Ipv6Addr::is_loopback`.
is_loopback : IpAddr → Bool
unfolding ip_eq
is_loopback (v4 a b c d) = a == 127
is_loopback (v6 s t u v w x y z) = ip_eq (v6 s t u v w x y z) (v6 0 0 0 0 0 0 0 1)

pub rule_matches : Rule → IpAddr → Bool
unfolding ip_eq is_loopback
rule_matches (exact e) ip = ip_eq e ip
rule_matches loopback ip = is_loopback ip
rule_matches (mask (octets segs)) (v4 a b c d) = all_match segs (a ∷ b ∷ c ∷ d ∷ [])
rule_matches (mask (octets segs)) (v6 s t u v w x y z) = false
rule_matches (mask (groups segs)) ip = all_match segs (segments ip)

abbrev any_matches : List Rule → IpAddr → Bool
any_matches [] ip = false
any_matches (r ∷ rs) ip = rule_matches r ip || any_matches rs ip

unfoldable pub matches : AllowedClients → IpAddr → Bool
unfolding normalize_mapped
matches c ip =
    let normal = normalize_mapped ip in if c.allow_all then true else any_matches c.rules normal
