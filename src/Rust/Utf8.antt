-- ===== src/Rust/Utf8.antt =====
-- UTF-8: `str::from_utf8` as a test, and `String::from_utf8_lossy`.
use resocks.Base.{
  ℕ, zero, suc, Bool, true, false, ◌&&◌, [], ◌∷◌, ◌++◌, ltb, leb, ◌==◌, if◌then◌else◌,
}
use resocks.Rust.Text.{Bytes}

-- What a character's first byte says: so many bytes follow, the next of them in this range.
pub data Lead : Type 0 where
  ascii invalid : Lead
  opens : ℕ → ℕ → ℕ → Lead

lead : ℕ → Lead
lead x =
    if ltb x 0x80
    then ascii
    else if leb 0xC2 x && leb x 0xDF
    then opens 1 0x80 0xBF
    else if x == 0xE0
    then opens 2 0xA0 0xBF
    else if x == 0xED
    then opens 2 0x80 0x9F
    else if leb 0xE1 x && leb x 0xEF
    then opens 2 0x80 0xBF
    else if x == 0xF0
    then opens 3 0x90 0xBF
    else if leb 0xF1 x && leb x 0xF3
    then opens 3 0x80 0xBF
    else if x == 0xF4
    then opens 3 0x80 0x8F
    else invalid

utf8_from : ℕ → ℕ → ℕ → Bytes → Bool
unfolding lead
utf8_from zero lo hi [] = true
utf8_from (suc n) lo hi [] = false
utf8_from zero lo hi (x ∷ xs) = elim (lead x) [
  | ascii ↦ utf8_from 0 0 0 xs
  | invalid ↦ false
  | opens n lo hi ↦ utf8_from n lo hi xs
]
utf8_from (suc n) lo hi (x ∷ xs) = leb lo x && leb x hi && utf8_from n 0x80 0xBF xs

-- `str::from_utf8(..).is_ok()`.
unfoldable pub is_utf8 : Bytes → Bool
unfolding utf8_from
is_utf8 s = utf8_from 0 0 0 s

-- U+FFFD.
abbrev replacement : Bytes
replacement = 0xEF ∷ 0xBF ∷ 0xBD ∷ []

-- `seen` are the bytes of a character that so many bytes are missing of.
lossy_from : Bytes → ℕ → ℕ → ℕ → Bytes → Bytes
unfolding lead
lossy_from seen zero lo hi [] = []
lossy_from seen (suc n) lo hi [] = replacement
lossy_from seen zero lo hi (x ∷ xs) = elim (lead x) [
  | ascii ↦ x ∷ lossy_from [] 0 0 0 xs
  | invalid ↦ replacement ++ lossy_from [] 0 0 0 xs
  | opens n lo hi ↦ lossy_from (x ∷ []) n lo hi xs
]
lossy_from seen (suc n) lo hi (x ∷ xs) =
    let more = lossy_from (seen ++ x ∷ []) n 0x80 0xBF xs in
    let whole = seen ++ x ∷ lossy_from [] 0 0 0 xs in
    let broken : Bytes = elim (lead x) [
      | ascii ↦ x ∷ lossy_from [] 0 0 0 xs
      | invalid ↦ replacement ++ lossy_from [] 0 0 0 xs
      | opens n lo hi ↦ lossy_from (x ∷ []) n lo hi xs
    ] in
    if leb lo x && leb x hi then (if n == 0 then whole else more) else replacement ++ broken

pub from_utf8_lossy : Bytes → Bytes
unfolding lossy_from
from_utf8_lossy s = lossy_from [] 0 0 0 s
