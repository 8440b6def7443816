-- ===== src/Rust/Net.antt =====
-- `std::net`: whether a text is an `Ipv6Addr`, by the library's recursive-descent parser. A reader
-- gives what it read and the bytes behind it; on `none` the parser goes back to where it was.
use resocks.Base.{
  ℕ, zero, suc, ◌+◌, ◌-◌, ◌*◌, ◌≡◌, refl, Bool, true, false, not, ◌&&◌, ◌||◌, Option, none, some,
  [], ◌∷◌, arith, ltb, leb, ◌==◌, if◌then◌else◌,
}
use resocks.Rust.Text.{Bytes, is_empty, starts_with_byte}
pub mod Separators
pub mod Values

-- `char::to_digit`; a letter is no digit in base ten.
unfoldable pub to_digit : ℕ → ℕ → Option ℕ
to_digit radix c =
    if leb b'0' c && leb c b'9'
    then some (c - b'0')
    else if (radix == 16) && leb b'a' c && leb c b'f'
    then some (c - b'a' + 10)
    else if (radix == 16) && leb b'A' c && leb c b'F'
    then some (c - b'A' + 10)
    else none

-- What `read_number` asks of a number: its base, its last value, how many digits it may have, and
-- whether it may begin with a zero.
pub record Shape : Type 0 where
  pub radix : ℕ
  pub limit : ℕ
  pub max_digits : ℕ
  pub zero_prefix : Bool

abbrev pub octet : Shape
octet = record { radix = 10; limit = 255; max_digits = 3; zero_prefix = false }

abbrev pub hextet : Shape
hextet = record { radix = 16; limit = 65535; max_digits = 4; zero_prefix = true }

-- The digit loop: `count` digits were read, for `value`.
read_digits : Shape → ℕ → ℕ → Bytes → Option (ℕ × ℕ × Bytes)
unfolding to_digit
read_digits s count value [] = some (count, value, [])
read_digits s count value (c ∷ cs) = elim (to_digit s.radix c) [
  | none ↦ some (count, value, c ∷ cs)
  | some d ↦
      let next = value * s.radix + d in
      let rest = read_digits s (count + 1) next cs in
      if leb next s.limit && ltb count s.max_digits then rest else none
]

abbrev accept : Shape → Bool → Option (ℕ × ℕ × Bytes) → Option (ℕ × Bytes)
accept s leading_zero none = none
accept s leading_zero (some (count, value, rest)) =
    if (count == 0) || (not s.zero_prefix && leading_zero && ltb 1 count)
    then none
    else some (value, rest)

read_number : Shape → Bytes → Option (ℕ × Bytes)
unfolding read_digits
read_number s bs = accept s (starts_with_byte b'0' bs) (read_digits s 0 0 bs)

read_char : ℕ → Bytes → Option Bytes
read_char c [] = none
read_char c (x ∷ xs) = if x == c then some xs else none

-- `read_separator`: before every item but the first stands the separator.
read_item : Shape → ℕ → ℕ → Bytes → Option (ℕ × Bytes)
unfolding read_number read_char
read_item s separator zero bs = read_number s bs
read_item s separator (suc i) bs = elim (read_char separator bs) [
  | none ↦ none
  | some rest ↦ read_number s rest
]

-- The octets from `i` on, with so many left.
read_octets : ℕ → ℕ → Bytes → Option Bytes
unfolding read_item
read_octets zero i bs = some bs
read_octets (suc left) i bs = elim (read_item octet b'.' i bs) [
  | none ↦ none
  | some (_, rest) ↦ read_octets left (suc i) rest
]

-- `read_separator(':', i, |p| p.read_ipv4_addr())`.
read_ipv4 : ℕ → Bytes → Option Bytes
unfolding read_octets read_char
read_ipv4 zero bs = read_octets 4 0 bs
read_ipv4 (suc i) bs = elim (read_char b':' bs) [ none ↦ none | some rest ↦ read_octets 4 0 rest ]

-- `read_groups`: the number of groups read, whether the last two were an IPv4 address, and what is
-- behind them. So many groups are left, and `i` were read.
pub record Groups : Type 0 where
  pub size : ℕ
  pub ended_in_ipv4 : Bool
  pub rest : Bytes

read_groups : ℕ → ℕ → Bytes → Groups
unfolding read_item read_ipv4
read_groups zero i bs = record { size = i; ended_in_ipv4 = false; rest = bs }
read_groups (suc left) i bs = elim (if ltb 0 left then read_ipv4 i bs else none) [
  | some rest ↦ record { size = i + 2; ended_in_ipv4 = true; rest = rest }
  | none ↦ elim (read_item hextet b':' i bs) [
    | none ↦ record { size = i; ended_in_ipv4 = false; rest = bs }
    | some (_, rest) ↦ read_groups left (suc i) rest
  ]
]

-- Behind `::`, up to the groups that are still free.
read_tail : ℕ → Option Bytes → Option Bytes
unfolding read_groups
read_tail size none = none
read_tail size (some rest) = some (read_groups (8 - (size + 1)) 0 rest).rest

read_colons : Bytes → Option Bytes
unfolding read_char
read_colons bs = elim (read_char b':' bs) [ none ↦ none | some rest ↦ read_char b':' rest ]

-- `read_ipv6_addr`: what is behind the address.
read_ipv6 : Bytes → Option Bytes
unfolding read_groups read_tail read_colons
read_ipv6 bs =
    let head = read_groups 8 0 bs in
    if head.size == 8
    then some head.rest
    else if head.ended_in_ipv4
    then none
    else read_tail head.size (read_colons head.rest)

-- `s.parse::<Ipv6Addr>().is_ok()`: the address is the whole text.
pub is_ipv6 : Bytes → Bool
unfolding read_ipv6
is_ipv6 bs = elim (read_ipv6 bs) [ none ↦ false | some rest ↦ is_empty rest ]
