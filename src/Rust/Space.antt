-- ===== src/Rust/Space.antt =====
-- `char::is_whitespace` and `str::trim` on UTF-8 bytes.
pub mod Char
use resocks.Base.{
  ◌≡◌, refl, ℕ, zero, suc, ◌-◌, Bool, false, ◌&&◌, ◌||◌, [], ◌∷◌, ltb, leb, ◌==◌, if◌then◌else◌,
}
use resocks.Rust.Text.{Bytes, is_empty}

-- One-byte and two-byte spaces.
is_space_1 : ℕ → Bool
is_space_1 a = leb 0x09 a && leb a 0x0D || a == 0x20

is_space_2 : ℕ → ℕ → Bool
is_space_2 a b = (a == 0xC2) && ((b == 0x85) || (b == 0xA0))

-- U+1680, U+2000 to U+200A, U+2028, U+2029, U+202F, U+205F and U+3000.
is_space_3 : ℕ → ℕ → ℕ → Bool
is_space_3 a b c =
    (a == 0xE1) && (b == 0x9A) && (c == 0x80)
    || (a == 0xE2)
      && (b == 0x80)
      && (leb 0x80 c && leb c 0x8A || c == 0xA8 || c == 0xA9 || c == 0xAF)
    || (a == 0xE2) && (b == 0x81) && (c == 0x9F)
    || (a == 0xE3) && (b == 0x80) && (c == 0x80)

-- The bytes of the space that a text begins with; 0 if it begins with none.
space_len : Bytes → ℕ
unfolding is_space_1 is_space_2 is_space_3
space_len [] = 0
space_len (a ∷ []) = if is_space_1 a then 1 else 0
space_len (a ∷ b ∷ []) = if is_space_1 a then 1 else if is_space_2 a b then 2 else 0
space_len (a ∷ b ∷ c ∷ _) =
    if is_space_1 a then 1 else if is_space_2 a b then 2 else if is_space_3 a b c then 3 else 0

-- `trim_start`, with so many bytes of a space still to pass over.
skip_spaces : ℕ → Bytes → Bytes
unfolding space_len
skip_spaces n [] = []
skip_spaces (suc n) (x ∷ xs) = skip_spaces n xs
skip_spaces zero (x ∷ xs) =
    let later = skip_spaces (space_len (x ∷ xs) - 1) xs in
    if space_len (x ∷ xs) == 0 then x ∷ xs else later

-- `s.trim().is_empty()`: nothing but spaces.
unfoldable pub is_blank : Bytes → Bool
unfolding skip_spaces
is_blank s = is_empty (skip_spaces 0 s)

-- `s.chars().any(char::is_whitespace)`.
pub has_space : Bytes → Bool
unfolding space_len
has_space [] = false
has_space (x ∷ xs) = ltb 0 (space_len (x ∷ xs)) || has_space xs

-- `trim_end`: a text is kept up to its last byte that is not of a trailing space.
trim_end : Bytes → Bytes
unfolding skip_spaces
trim_end [] = []
trim_end (x ∷ xs) =
    let later = trim_end xs in if is_empty (skip_spaces 0 (x ∷ xs)) then [] else x ∷ later

unfoldable pub trim : Bytes → Bytes
unfolding skip_spaces trim_end
trim s = trim_end (skip_spaces 0 s)

-- A marker is no space.
pub is_blank-marker : (s : Bytes) → is_blank (b'*' ∷ s) ≡ false
unfolding is_blank
is_blank-marker [] = refl
is_blank-marker (x ∷ []) = refl
is_blank-marker (x ∷ y ∷ s) = refl
