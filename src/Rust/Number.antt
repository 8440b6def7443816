-- ===== src/Rust/Number.antt =====
-- Decimal numbers: `u16::from_str`, `u32::from_str` and the `Display` of `u16`.
use native.Mathlib.Nat.{pow-suc}
use resocks.Base.{
  ℕ, zero, suc, ◌+◌, ◌-◌, ◌*◌, ◌/◌, ◌%◌, ◌^◌, ◌≤◌, ◌<◌, ◌≡◌, ◌∙◌, refl, inl, inr, false, ◌&&◌,
  Option, none, some, [], ◌∷◌, Bool-cases, arith, ltb, leb, ◌==◌, if◌then◌else◌,
}
use resocks.Rust.Text.{Bytes, is_ascii_digit, contains, is_empty}

-- The digits read so far stand for `acc`; a value above `limit` is an overflow.
unfoldable pub digits_value : ℕ → ℕ → Bytes → Option ℕ
unfolding is_ascii_digit
digits_value limit acc [] = some acc
digits_value limit acc (c ∷ cs) =
    let next = acc * 10 + (c - b'0') in
    let rest = digits_value limit next cs in
    if is_ascii_digit c && leb next limit then rest else none

abbrev without_sign : Bytes → Bytes
without_sign [] = []
without_sign (c ∷ cs) = if c == b'+' then cs else c ∷ cs

abbrev some_digits : ℕ → Bytes → Option ℕ
some_digits limit [] = none
some_digits limit (c ∷ cs) = digits_value limit 0 (c ∷ cs)

-- `from_str` of an unsigned type: at least one digit, behind at most one `+`.
unfoldable pub parse_unsigned : ℕ → Bytes → Option ℕ
unfolding digits_value
parse_unsigned limit s = some_digits limit (without_sign s)

abbrev pub u16_max : ℕ
u16_max = 65535

abbrev pub parse_u16 : Bytes → Option ℕ
parse_u16 = parse_unsigned u16_max

-- The digits of `n` in front of `rest`; the fuel bounds their number.
decimal_onto : ℕ → ℕ → Bytes → Bytes
decimal_onto zero n rest = rest
decimal_onto (suc k) n rest =
    let longer = decimal_onto k (n / 10) ((b'0' + n % 10) ∷ rest) in
    if ltb n 10 then (b'0' + n) ∷ rest else longer

-- Five digits are enough for a `u16`.
unfoldable pub decimal : ℕ → Bytes
unfolding decimal_onto
decimal n = decimal_onto 5 n []

-- Reading the digits of `n` brings the accumulator to `n`.
digits_value-decimal_onto :
    (k n : ℕ) (rest : Bytes)
    → n < 10 ^ k
    → n ≤ u16_max
    → digits_value u16_max 0 (decimal_onto k n rest) ≡ digits_value u16_max n rest
unfolding digits_value decimal_onto
digits_value-decimal_onto zero n rest h l = let n_zero : n ≡ 0 = omega arith in rw n_zero
digits_value-decimal_onto (suc k) n rest h l = elim (Bool-cases (ltb n 10)) [
  | inl one ↦ ground arith
  | inr more ↦
      let fits : n / 10 < 10 ^ k = omega (arith, pow-suc 10 k) in
      let step = digits_value-decimal_onto k (n / 10) ((b'0' + n % 10) ∷ rest) fits (omega arith) in
      ground (arith, step)
]

-- The first byte is a digit, and so is every other.
decimal_onto-absent :
    (k n : ℕ) (rest : Bytes) (c : ℕ)
    → is_ascii_digit c ≡ false
    → contains c rest ≡ false
    → contains c (decimal_onto k n rest) ≡ false
unfolding decimal_onto contains is_ascii_digit
decimal_onto-absent zero n rest c d h = h
decimal_onto-absent (suc k) n rest c d h =
    ground (arith, decimal_onto-absent k (n / 10) ((b'0' + n % 10) ∷ rest) c d (ground arith))

pub decimal-absent : (n c : ℕ) → is_ascii_digit c ≡ false → contains c (decimal n) ≡ false
unfolding decimal contains
decimal-absent n c d = decimal_onto-absent 5 n [] c d refl

decimal_onto-cons : (k n c : ℕ) (rest : Bytes) → is_empty (decimal_onto k n (c ∷ rest)) ≡ false
unfolding decimal_onto
decimal_onto-cons zero n c rest = refl
decimal_onto-cons (suc k) n c rest =
    ground (arith, decimal_onto-cons k (n / 10) (b'0' + n % 10) (c ∷ rest))

decimal-nonempty : (n : ℕ) → is_empty (decimal n) ≡ false
unfolding decimal
decimal-nonempty n = ground (arith, decimal_onto-cons 4 (n / 10) (b'0' + n % 10) [])

some_digits-plain :
    (limit : ℕ) (s : Bytes)
    → contains b'+' s ≡ false
    → is_empty s ≡ false
    → some_digits limit (without_sign s) ≡ digits_value limit 0 s
unfolding contains digits_value
some_digits-plain limit [] h e = cc
some_digits-plain limit (c ∷ cs) h e = ground arith

-- Every `u16` is read back from its digits.
pub parse_u16-decimal : (n : ℕ) → n ≤ u16_max → parse_u16 (decimal n) ≡ some n
unfolding parse_unsigned is_ascii_digit
parse_u16-decimal n h =
    some_digits-plain u16_max (decimal n) (decimal-absent n b'+' refl) (decimal-nonempty n)
    ∙ (unfold decimal in digits_value-decimal_onto 5 n [] (omega arith) h)

-- What is read fits the type.
digits_value-le :
    (limit acc : ℕ) (s : Bytes) {n : ℕ}
    → acc ≤ limit
    → digits_value limit acc s ≡ some n
    → n ≤ limit
unfolding digits_value
digits_value-le limit acc [] a h = ground arith
digits_value-le limit acc (c ∷ cs) {n} a h =
    ground (arith, digits_value-le limit (acc * 10 + (c - b'0')) cs {n = n})

pub parse_unsigned-le :
    (limit : ℕ) (s : Bytes) {n : ℕ} → parse_unsigned limit s ≡ some n → n ≤ limit
unfolding parse_unsigned
parse_unsigned-le limit s {n} = go (without_sign s)
  where
    go : (t : Bytes) → some_digits limit t ≡ some n → n ≤ limit
    go [] h = cc
    go (c ∷ cs) h = digits_value-le limit 0 (c ∷ cs) (omega arith) h

-- A number that is read is at least what was read of it before.
digits_value-grows : (limit acc n : ℕ) (s : Bytes) → digits_value limit acc s ≡ some n → acc ≤ n
unfolding digits_value
digits_value-grows limit acc n [] e = ground arith
digits_value-grows limit acc n (c ∷ s) e =
    ground (arith, digits_value-grows limit (acc * 10 + (c - b'0')) n s)

digits_value-limit :
    (limit lower acc n : ℕ) (s : Bytes)
    → digits_value limit acc s ≡ some n
    → n ≤ lower
    → digits_value lower acc s ≡ some n
unfolding digits_value
digits_value-limit limit lower acc n [] e h = e
digits_value-limit limit lower acc n (c ∷ s) e h = ground (
  arith,
  digits_value-limit limit lower (acc * 10 + (c - b'0')) n s,
  digits_value-grows limit (acc * 10 + (c - b'0')) n s,
)

-- A number that a wider type reads and a narrower one holds, the narrower one reads.
pub parse_unsigned-limit :
    (limit lower n : ℕ) (s : Bytes)
    → parse_unsigned limit s ≡ some n
    → n ≤ lower
    → parse_unsigned lower s ≡ some n
unfolding parse_unsigned
parse_unsigned-limit limit lower n s e h = go (without_sign s) e
  where
    go : (t : Bytes) → some_digits limit t ≡ some n → some_digits lower t ≡ some n
    go [] e = cc
    go (c ∷ t) e = digits_value-limit limit lower 0 n (c ∷ t) e h
