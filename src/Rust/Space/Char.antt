-- ===== src/Rust/Space/Char.antt =====
-- `char::is_whitespace`, against the list of Unicode's white space and the encoding of UTF-8.
use resocks.Base.{
  ℕ, ◌+◌, ◌-◌, ◌/◌, ◌%◌, ◌≤◌, ◌<◌, ◌≡◌, refl, ap, inl, inr, true, [], ◌∷◌, ◌++◌, Bool-cases, arith,
  ltb, leb, ◌==◌, if◌then◌else◌,
}
use resocks.Rust.Text.{Bytes}
use resocks.Rust.Space.{is_space_1, is_space_2, is_space_3, space_len, has_space}

-- The bytes of a character below U+10000.
abbrev pub encode_utf8 : ℕ → Bytes
encode_utf8 c =
    if ltb c 0x80
    then c ∷ []
    else if ltb c 0x800
    then (0xC0 + c / 64) ∷ (0x80 + c % 64) ∷ []
    else (0xE0 + c / 4096) ∷ (0x80 + c / 64 % 64) ∷ (0x80 + c % 64) ∷ []

-- The characters with the property White_Space.
pub data IsWhiteSpace (c : ℕ) : Type 0 where
  tab_to_return : 0x09 ≤ c → c ≤ 0x0D → IsWhiteSpace c
  space : c ≡ 0x20 → IsWhiteSpace c
  next_line : c ≡ 0x85 → IsWhiteSpace c
  no_break_space : c ≡ 0xA0 → IsWhiteSpace c
  ogham_space_mark : c ≡ 0x1680 → IsWhiteSpace c
  quad_to_hair_space : 0x2000 ≤ c → c ≤ 0x200A → IsWhiteSpace c
  line_separator : c ≡ 0x2028 → IsWhiteSpace c
  paragraph_separator : c ≡ 0x2029 → IsWhiteSpace c
  narrow_no_break_space : c ≡ 0x202F → IsWhiteSpace c
  medium_mathematical_space : c ≡ 0x205F → IsWhiteSpace c
  ideographic_space : c ≡ 0x3000 → IsWhiteSpace c

one_byte : (x : ℕ) (b : Bytes) → is_space_1 x ≡ true → has_space (x ∷ b) ≡ true
unfolding has_space space_len
one_byte x [] h = rw h
one_byte x (y ∷ []) h = rw h
one_byte x (y ∷ z ∷ b) h = rw h

two_bytes : (x y : ℕ) (b : Bytes) → is_space_2 x y ≡ true → has_space (x ∷ y ∷ b) ≡ true
unfolding has_space space_len
two_bytes x y [] h = ground arith
two_bytes x y (z ∷ b) h = ground arith

three_bytes : (x y z : ℕ) (b : Bytes) → is_space_3 x y z ≡ true → has_space (x ∷ y ∷ z ∷ b) ≡ true
unfolding has_space space_len
three_bytes x y z b h = ground arith

encode_1 : (c : ℕ) → c < 0x80 → encode_utf8 c ≡ c ∷ []
encode_1 c h = ground arith

-- U+2000 to U+203F.
encode_punctuation : (n : ℕ) → n < 64 → encode_utf8 (0x2000 + n) ≡ 0xE2 ∷ 0x80 ∷ (0x80 + n) ∷ []
encode_punctuation n h = ground arith

has_space-front : (c : ℕ) (b : Bytes) → IsWhiteSpace c → has_space (encode_utf8 c ++ b) ≡ true
has_space-front c b (tab_to_return h k) =
    rw (encode_1 c (omega arith)) (one_byte c b (unfold is_space_1 in ground arith))
has_space-front c b (space e) = rw e (one_byte 0x20 b (unfold is_space_1 in refl))
has_space-front c b (next_line e) = rw e (two_bytes 0xC2 0x85 b (unfold is_space_2 in refl))
has_space-front c b (no_break_space e) = rw e (two_bytes 0xC2 0xA0 b (unfold is_space_2 in refl))
has_space-front c b (ogham_space_mark e) =
    rw e (three_bytes 0xE1 0x9A 0x80 b (unfold is_space_3 in refl))
has_space-front c b (quad_to_hair_space h k) =
    let n = c - 0x2000 in
    let same : c ≡ 0x2000 + n = omega arith in
    rw (same, encode_punctuation n (omega arith))
      (three_bytes 0xE2 0x80 (0x80 + n) b (unfold is_space_3 in ground arith))
has_space-front c b (line_separator e) =
    rw e (three_bytes 0xE2 0x80 0xA8 b (unfold is_space_3 in refl))
has_space-front c b (paragraph_separator e) =
    rw e (three_bytes 0xE2 0x80 0xA9 b (unfold is_space_3 in refl))
has_space-front c b (narrow_no_break_space e) =
    rw e (three_bytes 0xE2 0x80 0xAF b (unfold is_space_3 in refl))
has_space-front c b (medium_mathematical_space e) =
    rw e (three_bytes 0xE2 0x81 0x9F b (unfold is_space_3 in refl))
has_space-front c b (ideographic_space e) =
    rw e (three_bytes 0xE3 0x80 0x80 b (unfold is_space_3 in refl))

-- White space anywhere in a text is found.
pub has_space-at :
    (c : ℕ) (a b : Bytes) → IsWhiteSpace c → has_space (a ++ (encode_utf8 c ++ b)) ≡ true
unfolding has_space
has_space-at c [] b w = has_space-front c b w
has_space-at c (x ∷ a) b w = ground (arith, has_space-at c a b w)

-- A text that holds white space, and one that begins with it.
pub record HoldsSpace (s : Bytes) : Type 0 where
  pub char : ℕ
  pub white : IsWhiteSpace char
  pub before : Bytes
  pub behind : Bytes
  pub split : s ≡ before ++ (encode_utf8 char ++ behind)

record Begins (s : Bytes) : Type 0 where
  char : ℕ
  white : IsWhiteSpace char
  behind : Bytes
  split : s ≡ encode_utf8 char ++ behind

space_first_1 : (x : ℕ) (b : Bytes) → is_space_1 x ≡ true → Begins (x ∷ b)
unfolding is_space_1
space_first_1 x b h = elim (Bool-cases (x == 0x20)) [
  | inl blank ↦ record { char = x; white = space (ground arith); behind = b; split = ground arith }
  | inr other ↦ record {
    char = x;
    white = tab_to_return (ground arith) (ground arith);
    behind = b;
    split = ground arith;
  }
]

space_first_2 : (x y : ℕ) (b : Bytes) → is_space_2 x y ≡ true → Begins (x ∷ y ∷ b)
unfolding is_space_2
space_first_2 x y b h = elim (Bool-cases (y == 0x85)) [
  | inl line ↦ record { char = 0x85; white = next_line refl; behind = b; split = ground arith }
  | inr other ↦ record {
    char = 0xA0;
    white = no_break_space refl;
    behind = b;
    split = ground arith;
  }
]

space_first_3 : (x y z : ℕ) (b : Bytes) → is_space_3 x y z ≡ true → Begins (x ∷ y ∷ z ∷ b)
unfolding is_space_3
space_first_3 x y z b h = elim (Bool-cases (x == 0xE1)) [
  | inl ogham ↦ record {
    char = 0x1680;
    white = ogham_space_mark refl;
    behind = b;
    split = ground arith;
  }
  | inr no_ogham ↦ elim (Bool-cases (x == 0xE3)) [
    | inl ideographic ↦ record {
      char = 0x3000;
      white = ideographic_space refl;
      behind = b;
      split = ground arith;
    }
    | inr general ↦ elim (Bool-cases (y == 0x81)) [
      | inl medium ↦ record {
        char = 0x205F;
        white = medium_mathematical_space refl;
        behind = b;
        split = ground arith;
      }
      | inr no_medium ↦ elim (Bool-cases (leb z 0x8A)) [
        | inl quad ↦ record {
          char = 0x2000 + (z - 0x80);
          white = quad_to_hair_space (ground arith) (ground arith);
          behind = b;
          split = ground (arith, encode_punctuation (z - 0x80));
        }
        | inr later ↦ elim (Bool-cases (z == 0xA8)) [
          | inl line ↦ record {
            char = 0x2028;
            white = line_separator refl;
            behind = b;
            split = ground arith;
          }
          | inr no_line ↦ elim (Bool-cases (z == 0xA9)) [
            | inl paragraph ↦ record {
              char = 0x2029;
              white = paragraph_separator refl;
              behind = b;
              split = ground arith;
            }
            | inr narrow ↦ record {
              char = 0x202F;
              white = narrow_no_break_space refl;
              behind = b;
              split = ground arith;
            }
          ]
        ]
      ]
    ]
  ]
]

space_first : (x : ℕ) (s : Bytes) → 0 < space_len (x ∷ s) → Begins (x ∷ s)
unfolding space_len
space_first x [] h = space_first_1 x [] (ground arith)
space_first x (y ∷ []) h = elim (Bool-cases (is_space_1 x)) [
  | inl one ↦ space_first_1 x (y ∷ []) one
  | inr no_one ↦ space_first_2 x y [] (ground arith)
]
space_first x (y ∷ z ∷ s) h = elim (Bool-cases (is_space_1 x)) [
  | inl one ↦ space_first_1 x (y ∷ z ∷ s) one
  | inr no_one ↦ elim (Bool-cases (is_space_2 x y)) [
    | inl two ↦ space_first_2 x y (z ∷ s) two
    | inr no_two ↦ space_first_3 x y z s (ground arith)
  ]
]

-- What is found is white space, somewhere in the text.
pub has_space-found : (s : Bytes) → has_space s ≡ true → HoldsSpace s
unfolding has_space
has_space-found [] h = cc
has_space-found (x ∷ s) h = elim (Bool-cases (ltb 0 (space_len (x ∷ s)))) [
  | inl here ↦
      let f = space_first x s (ground arith) in
      record { char = f.char; white = f.white; before = []; behind = f.behind; split = f.split }
  | inr later ↦
      let f = has_space-found s (ground arith) in
      record {
        char = f.char;
        white = f.white;
        before = x ∷ f.before;
        behind = f.behind;
        split = ap (λ t. x ∷ t) f.split;
      }
]
