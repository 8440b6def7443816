-- ===== src/Rust/Text.antt =====
-- Searching and splitting of byte strings: the `str` and slice methods that the code calls.
use Prim.Native.Char.{code}
use Prim.Native.String.{String}
use resocks.Base.{
  ℕ, ◌+◌, ◌≡◌, refl, Bool, true, false, ◌&&◌, ◌||◌, Option, none, some, List, [], ◌∷◌, ◌++◌, arith,
  ltb, leb, ◌==◌, if◌then◌else◌,
}

abbrev pub Bytes : Type 0
Bytes = List ℕ

-- The bytes of an ASCII literal.
abbrev pub codes : String → Bytes
codes String.[] = []
codes (String.◌∷◌ c s) = code c ∷ codes s

unfoldable pub bytes_eq : Bytes → Bytes → Bool
bytes_eq [] [] = true
bytes_eq (x ∷ xs) (y ∷ ys) = x == y && bytes_eq xs ys
bytes_eq _ _ = false

unfoldable pub contains : ℕ → Bytes → Bool
contains c [] = false
contains c (x ∷ xs) = x == c || contains c xs

abbrev pub is_empty : Bytes → Bool
is_empty [] = true
is_empty (x ∷ xs) = false

abbrev pub starts_with_byte : ℕ → Bytes → Bool
starts_with_byte c [] = false
starts_with_byte c (x ∷ xs) = x == c

unfoldable pub starts_with : Bytes → Bytes → Bool
starts_with [] s = true
starts_with (p ∷ ps) [] = false
starts_with (p ∷ ps) (x ∷ xs) = p == x && starts_with ps xs

-- `strip_prefix(char)`.
abbrev pub strip_prefix : ℕ → Bytes → Option Bytes
strip_prefix c [] = none
strip_prefix c (x ∷ xs) = if x == c then some xs else none

abbrev cons_left : ℕ → Option (Bytes × Bytes) → Option (Bytes × Bytes)
cons_left x none = none
cons_left x (some (a, b)) = some (x ∷ a, b)

-- The parts before and behind the first occurrence.
unfoldable pub split_once : ℕ → Bytes → Option (Bytes × Bytes)
split_once c [] = none
split_once c (x ∷ xs) = if x == c then some ([], xs) else cons_left x (split_once c xs)

abbrev or_here : ℕ → ℕ → Bytes → Option (Bytes × Bytes) → Option (Bytes × Bytes)
or_here c x xs (some (a, b)) = some (x ∷ a, b)
or_here c x xs none = if x == c then some ([], xs) else none

-- The parts before and behind the last occurrence.
unfoldable pub rsplit_once : ℕ → Bytes → Option (Bytes × Bytes)
rsplit_once c [] = none
rsplit_once c (x ∷ xs) = or_here c x xs (rsplit_once c xs)

-- `.iter().any(..)` and `.iter().all(..)`.
unfoldable pub any : (ℕ → Bool) → Bytes → Bool
any p [] = false
any p (x ∷ xs) = p x || any p xs

unfoldable pub all : (ℕ → Bool) → Bytes → Bool
all p [] = true
all p (x ∷ xs) = p x && all p xs

abbrev within : ℕ → ℕ → ℕ → Bool
within lo hi c = leb lo c && leb c hi

unfoldable pub is_ascii_digit : ℕ → Bool
is_ascii_digit c = within b'0' b'9' c

unfoldable pub is_ascii_alphabetic : ℕ → Bool
is_ascii_alphabetic c = within b'a' b'z' c || within b'A' b'Z' c

unfoldable pub is_ascii_alphanumeric : ℕ → Bool
unfolding is_ascii_alphabetic is_ascii_digit
is_ascii_alphanumeric c = is_ascii_alphabetic c || is_ascii_digit c

unfoldable pub is_ascii_hexdigit : ℕ → Bool
is_ascii_hexdigit c = within b'0' b'9' c || within b'a' b'f' c || within b'A' b'F' c

unfoldable pub is_ascii_control : ℕ → Bool
is_ascii_control c = ltb c 0x20 || c == 0x7F

-- Space, tab, line feed, form feed, carriage return.
unfoldable pub is_ascii_whitespace : ℕ → Bool
is_ascii_whitespace c = c == 0x20 || c == 0x09 || c == 0x0A || c == 0x0C || c == 0x0D

unfoldable pub to_ascii_lowercase : ℕ → ℕ
to_ascii_lowercase c = if within b'A' b'Z' c then c + 32 else c

pub bytes_eq_refl : (s : Bytes) → bytes_eq s s ≡ true
unfolding bytes_eq
bytes_eq_refl [] = refl
bytes_eq_refl (x ∷ xs) = ground (arith, bytes_eq_refl xs)

pub bytes_eq_sound : (s t : Bytes) → bytes_eq s t ≡ true → s ≡ t
unfolding bytes_eq
bytes_eq_sound [] [] h = refl
bytes_eq_sound (x ∷ xs) (y ∷ ys) h = ground (arith, bytes_eq_sound xs ys)
bytes_eq_sound (x ∷ xs) [] h = cc
bytes_eq_sound [] (y ∷ ys) h = cc

module _ (c : ℕ) where
  pub contains-append : (s t : Bytes) → contains c (s ++ t) ≡ contains c s || contains c t
  unfolding contains
  contains-append [] t = refl
  contains-append (x ∷ s) t = ground (arith, contains-append s t)

  pub split_once-absent : (s : Bytes) → contains c s ≡ false → split_once c s ≡ none
  unfolding split_once contains
  split_once-absent [] h = refl
  split_once-absent (x ∷ s) h = ground (arith, split_once-absent s)

  pub split_once-append :
      (pre post : Bytes)
      → contains c pre ≡ false
      → split_once c (pre ++ c ∷ post) ≡ some (pre, post)
  unfolding split_once contains
  split_once-append [] post h = ground arith
  split_once-append (x ∷ pre) post h = ground (arith, split_once-append pre post)

  pub rsplit_once-absent : (s : Bytes) → contains c s ≡ false → rsplit_once c s ≡ none
  unfolding rsplit_once contains
  rsplit_once-absent [] h = refl
  rsplit_once-absent (x ∷ s) h = ground (arith, rsplit_once-absent s)

  pub rsplit_once-append :
      (pre post : Bytes)
      → contains c post ≡ false
      → rsplit_once c (pre ++ c ∷ post) ≡ some (pre, post)
  unfolding rsplit_once
  rsplit_once-append [] post h = ground (arith, rsplit_once-absent post h)
  rsplit_once-append (x ∷ pre) post h = ground (arith, rsplit_once-append pre post h)

  -- The part before the last occurrence begins as the whole does.
  pub rsplit_once-starts_with_byte :
      (s a b : Bytes) (d : ℕ)
      → rsplit_once c s ≡ some (a, b)
      → starts_with_byte d a ≡ true
      → starts_with_byte d s ≡ true
  unfolding rsplit_once
  rsplit_once-starts_with_byte [] a b d e h = cc
  rsplit_once-starts_with_byte (x ∷ s) a b d e h = ground arith
