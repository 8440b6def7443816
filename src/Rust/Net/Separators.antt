-- ===== src/Rust/Net/Separators.antt =====
-- `std::net`: the bytes that cannot stand in an address.
use resocks.Base.{
  ℕ, zero, suc, ◌+◌, ◌-◌, ◌*◌, ◌≡◌, refl, ◌∙◌, ap, sym, inl, inr, Bool, true, false, not, ◌&&◌,
  ◌||◌, Option, none, some, [], ◌∷◌, arith, ltb, leb, ◌==◌, if◌then◌else◌, Bool-cases, Option-cases,
  ==_iff,
}
use resocks.Rust.Text.{Bytes, is_empty, starts_with_byte, contains}
use resocks.Rust.Net.{
  to_digit, Shape, octet, hextet, read_digits, accept, read_number, read_char, read_item,
  read_octets, read_ipv4, read_groups, read_tail, read_colons, read_ipv6, is_ipv6,
}

-- A byte that is no digit and no separator.
abbrev IsForeign : ℕ → Type 0
IsForeign c =
    (to_digit 10 c ≡ none) × (to_digit 16 c ≡ none) × ((b':' == c) ≡ false) × ((b'.' == c) ≡ false)

-- Whether the byte still stands in what a reader left, if it read at all.
abbrev Left : ℕ → Bool → Option Bytes → Type 0
Left c present none = Unit
Left c present (some rest) = contains c rest ≡ present

abbrev left_of : Option (ℕ × Bytes) → Option Bytes
left_of none = none
left_of (some (_, rest)) = some rest

abbrev digits_left : Option (ℕ × ℕ × Bytes) → Option Bytes
digits_left none = none
digits_left (some (_, _, rest)) = some rest

module _ (c : ℕ) (v : IsForeign c) where
  -- In both bases that the parser reads.
  abbrev NoDigit : Shape → Type 0
  NoDigit s = to_digit s.radix c ≡ none

  digit-ne : (s : Shape) (x d : ℕ) → NoDigit s → to_digit s.radix x ≡ some d → (x == c) ≡ false
  digit-ne s x d no_digit e = elim (Bool-cases (x == c)) [
    | inr differ ↦ differ
    | inl same ↦ let x_eq : x ≡ c = (==_iff x c).0 same in cc (ap (to_digit s.radix) x_eq)
  ]

  read_digits-Left :
      (s : Shape) (count value : ℕ) (bs : Bytes)
      → NoDigit s
      → Left c (contains c bs) (digits_left (read_digits s count value bs))
  unfolding read_digits contains
  read_digits-Left s count value [] h = refl
  read_digits-Left s count value (x ∷ bs) h = elim (Option-cases (to_digit s.radix x)) [
    | inl other ↦ rw (other, read_digits) refl
    | inr (d, digit) ↦
        let later = read_digits-Left s (count + 1) (value * s.radix + d) bs h in
        elim (Bool-cases (leb (value * s.radix + d) s.limit && ltb count s.max_digits)) [
          | inl fits ↦ rw (digit, read_digits) (rw (fits, digit-ne s x d h digit) later)
          | inr over ↦ rw (digit, read_digits) (rw over tt)
        ]
  ]

  accept-Left :
      (s : Shape) (zero_first present : Bool) (read : Option (ℕ × ℕ × Bytes))
      → Left c present (digits_left read)
      → Left c present (left_of (accept s zero_first read))
  accept-Left s z present none h = tt
  accept-Left s z present (some (count, value, rest)) h =
      elim (Bool-cases ((count == 0) || (not s.zero_prefix && z && ltb 1 count))) [
        | inl refused ↦ rw refused tt
        | inr taken ↦ rw taken h
      ]

  read_number-Left :
      (s : Shape) (bs : Bytes) → NoDigit s → Left c (contains c bs) (left_of (read_number s bs))
  unfolding read_number
  read_number-Left s bs h = accept-Left s _ _ _ (read_digits-Left s 0 0 bs h)

  read_char-Left : (d : ℕ) (bs : Bytes) → (d == c) ≡ false → Left c (contains c bs) (read_char d bs)
  unfolding read_char contains
  read_char-Left d [] h = tt
  read_char-Left d (x ∷ bs) h = ground arith

  read_item-Left :
      (s : Shape) (d i : ℕ) (bs : Bytes)
      → NoDigit s
      → (d == c) ≡ false
      → Left c (contains c bs) (left_of (read_item s d i bs))
  unfolding read_item
  read_item-Left s d zero bs h k = read_number-Left s bs h
  read_item-Left s d (suc i) bs h k = elim (Option-cases (read_char d bs)) [
    | inl absent ↦ rw (absent, read_item) tt
    | inr (rest, e) ↦
        rw (e, read_item) (rw (← (rw e at (read_char-Left d bs k))) (read_number-Left s rest h))
  ]

  -- A reader behind another one.
  Left-then :
      (present : Bool) (rest : Bytes) (read : Option Bytes)
      → contains c rest ≡ present
      → Left c (contains c rest) read
      → Left c present read
  Left-then present rest none e h = tt
  Left-then present rest (some later) e h = h ∙ e

  read_octets-Left : (left i : ℕ) (bs : Bytes) → Left c (contains c bs) (read_octets left i bs)
  unfolding read_octets
  read_octets-Left zero i bs = refl
  read_octets-Left (suc left) i bs = elim (Option-cases (read_item octet b'.' i bs)) [
    | inl absent ↦ rw (absent, read_octets) tt
    | inr ((value, rest), e) ↦
        rw (e, read_octets)
          (Left-then _ rest (read_octets left (suc i) rest)
            (rw e at (read_item-Left octet b'.' i bs v.0 v.3)) (read_octets-Left left (suc i) rest))
  ]

  read_ipv4-Left : (i : ℕ) (bs : Bytes) → Left c (contains c bs) (read_ipv4 i bs)
  unfolding read_ipv4
  read_ipv4-Left zero bs = read_octets-Left 4 0 bs
  read_ipv4-Left (suc i) bs = elim (Option-cases (read_char b':' bs)) [
    | inl absent ↦ rw (absent, read_ipv4) tt
    | inr (rest, e) ↦
        rw (e, read_ipv4)
          (Left-then _ rest (read_octets 4 0 rest) (rw e at (read_char-Left b':' bs v.2))
            (read_octets-Left 4 0 rest))
  ]

  read_groups-Left :
      (left i : ℕ) (bs : Bytes) → contains c (read_groups left i bs).rest ≡ contains c bs
  unfolding read_groups
  read_groups-Left zero i bs = refl
  read_groups-Left (suc left) i bs =
      elim (Option-cases (if ltb 0 left then read_ipv4 i bs else none)) [
        | inr (rest, e) ↦
            rw (e, read_groups)
              (elim (Bool-cases (ltb 0 left)) [
                | inl room ↦ rw (rw room at e) at (read_ipv4-Left i bs)
                | inr full ↦ cc (rw full at e)
              ])
        | inl absent ↦ elim (Option-cases (read_item hextet b':' i bs)) [
          | inl none_left ↦ rw (absent, none_left, read_groups) refl
          | inr ((value, rest), e) ↦
              rw (absent, e, read_groups)
                (read_groups-Left left (suc i) rest
                  ∙ (rw e at (read_item-Left hextet b':' i bs v.1 v.2)))
        ]
      ]

  read_colons-Left : (bs : Bytes) → Left c (contains c bs) (read_colons bs)
  unfolding read_colons
  read_colons-Left bs = elim (Option-cases (read_char b':' bs)) [
    | inl absent ↦ rw (absent, read_colons) tt
    | inr (rest, e) ↦
        rw (e, read_colons)
          (Left-then _ rest (read_char b':' rest) (rw e at (read_char-Left b':' bs v.2))
            (read_char-Left b':' rest v.2))
  ]

  read_tail-Left :
      (size : ℕ) (present : Bool) (read : Option Bytes)
      → Left c present read
      → Left c present (read_tail size read)
  unfolding read_tail
  read_tail-Left size present none h = tt
  read_tail-Left size present (some rest) h = read_groups-Left (8 - (size + 1)) 0 rest ∙ h

  read_ipv6-Left : (bs : Bytes) → Left c (contains c bs) (read_ipv6 bs)
  unfolding read_ipv6
  read_ipv6-Left bs =
      let head = read_groups 8 0 bs in
      let head_left = read_groups-Left 8 0 bs in
      elim (Bool-cases (head.size == 8)) [
        | inl all_read ↦ rw all_read head_left
        | inr some_free ↦ elim (Bool-cases head.ended_in_ipv4) [
          | inl embedded ↦ rw (some_free, embedded) tt
          | inr open_end ↦
              rw (some_free, open_end)
                (read_tail-Left head.size _ (read_colons head.rest)
                  (rw (← head_left) (read_colons-Left head.rest)))
        ]
      ]

  contains-empty : (rest : Bytes) → is_empty rest ≡ true → contains c rest ≡ false
  unfolding contains
  contains-empty [] h = refl
  contains-empty (x ∷ rest) h = cc

  -- An address has no foreign byte.
  pub is_ipv6-absent : (bs : Bytes) → is_ipv6 bs ≡ true → contains c bs ≡ false
  unfolding is_ipv6
  is_ipv6-absent bs h = elim (Option-cases (read_ipv6 bs)) [
    | inl absent ↦ cc (rw (absent, is_ipv6) at h)
    | inr (rest, e) ↦ sym (rw e at (read_ipv6-Left bs)) ∙ contains-empty rest (rw (e, is_ipv6) at h)
  ]

-- Nor a bracket.
pub is_ipv6-bracket : (bs : Bytes) → is_ipv6 bs ≡ true → contains b']' bs ≡ false
unfolding to_digit
is_ipv6-bracket bs h = is_ipv6-absent b']' (refl, refl, refl, refl) bs h

starts_with_byte-absent : (c : ℕ) (s : Bytes) → contains c s ≡ false → starts_with_byte c s ≡ false
unfolding contains
starts_with_byte-absent c [] h = refl
starts_with_byte-absent c (x ∷ s) h = ground arith

pub is_ipv6-opening : (bs : Bytes) → is_ipv6 bs ≡ true → starts_with_byte b'[' bs ≡ false
unfolding to_digit
is_ipv6-opening bs h =
    starts_with_byte-absent b'[' bs (is_ipv6-absent b'[' (refl, refl, refl, refl) bs h)

pub is_ipv6-at : (bs : Bytes) → is_ipv6 bs ≡ true → contains b'@' bs ≡ false
unfolding to_digit
is_ipv6-at bs h = is_ipv6-absent b'@' (refl, refl, refl, refl) bs h
