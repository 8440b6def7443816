-- ===== src/Rust/Net/Values.antt =====
-- `std::net`: the addresses that `Ipv4Addr`, `Ipv6Addr` and `IpAddr` read from a text, by the readers
-- of the parent, with the values that they read.
use resocks.Base.{
  ℕ, zero, suc, ◌+◌, ◌-◌, ◌*◌, Bool, true, false, Option, none, some, List, [], ◌∷◌, ◌++◌, length,
  ltb, ◌==◌, if◌then◌else◌,
}
use resocks.Rust.Net.{octet, hextet, read_item, read_char, read_colons}
use resocks.Rust.Text.{Bytes, is_empty}

abbrev Read : Type 0
Read = Option (List ℕ × Bytes)

abbrev onto : ℕ → Read → Read
onto v none = none
onto v (some (vs, rest)) = some (v ∷ vs, rest)

-- The octets from `i` on, with so many left.
octets_from : ℕ → ℕ → Bytes → Read
unfolding read_item
octets_from zero i bs = some ([], bs)
octets_from (suc left) i bs = elim (read_item octet b'.' i bs) [
  | none ↦ none
  | some (v, rest) ↦ onto v (octets_from left (suc i) rest)
]

ipv4_at : ℕ → Bytes → Read
unfolding octets_from read_char
ipv4_at zero bs = octets_from 4 0 bs
ipv4_at (suc i) bs = elim (read_char b':' bs) [ none ↦ none | some rest ↦ octets_from 4 0 rest ]

record Parts : Type 0 where
  values : List ℕ
  ended_in_ipv4 : Bool
  rest : Bytes

abbrev with_value : ℕ → Parts → Parts
with_value v p = record p { values = v ∷ p.values }

-- Two octets make a segment.
abbrev pairs : List ℕ → List ℕ
pairs (a ∷ b ∷ vs) = (a * 256 + b) ∷ pairs vs
pairs _ = []

-- `read_groups`.
groups_from : ℕ → ℕ → Bytes → Parts
unfolding read_item ipv4_at
groups_from zero i bs = record { values = []; ended_in_ipv4 = false; rest = bs }
groups_from (suc left) i bs = elim (if ltb 0 left then ipv4_at i bs else none) [
  | some (octets, rest) ↦ record { values = pairs octets; ended_in_ipv4 = true; rest = rest }
  | none ↦ elim (read_item hextet b':' i bs) [
    | none ↦ record { values = []; ended_in_ipv4 = false; rest = bs }
    | some (v, rest) ↦ with_value v (groups_from left (suc i) rest)
  ]
]

abbrev zeros : ℕ → List ℕ
zeros zero = []
zeros (suc n) = 0 ∷ zeros n

-- The groups behind `::`, at the end of the address.
abbrev filled : List ℕ → Parts → List ℕ × Bytes
filled head p = (head ++ zeros (8 - length head - length p.values) ++ p.values, p.rest)

ipv6_from : Bytes → Read
unfolding groups_from read_colons
ipv6_from bs =
    let head = groups_from 8 0 bs in
    if length head.values == 8
    then some (head.values, head.rest)
    else if head.ended_in_ipv4
    then none
    else elim (read_colons head.rest) [
      | none ↦ none
      | some rest ↦ some (filled head.values (groups_from (8 - (length head.values + 1)) 0 rest))
    ]

abbrev whole : Read → Option (List ℕ)
whole none = none
whole (some (vs, rest)) = if is_empty rest then some vs else none

-- `s.parse::<Ipv6Addr>()`: the eight segments.
unfoldable pub parse_ipv6 : Bytes → Option (List ℕ)
unfolding ipv6_from
parse_ipv6 bs = whole (ipv6_from bs)

-- `s.parse::<IpAddr>()`: four octets or eight segments.
unfoldable pub parse_ip : Bytes → Option (List ℕ)
unfolding octets_from ipv6_from
parse_ip bs = elim (octets_from 4 0 bs) [
  | none ↦ whole (ipv6_from bs)
  | some read ↦ whole (some read)
]
