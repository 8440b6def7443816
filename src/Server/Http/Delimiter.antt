-- ===== src/Server/Http/Delimiter.antt =====
-- server/mod.rs: `windows(4).position(|w| w == b"\r\n\r\n")`, as a search for the first delimiter.
use resocks.Base.{
  ℕ, suc, ◌+◌, ◌≤◌, ◌≡◌, refl, ◌∙◌, ap, sym, inl, inr, ◌⊎◌, true, false, some, [], ◌∷◌, ◌++◌,
  length, drop, Bool-cases, Option-cases, arith,
}
use resocks.Rust.Text.{Bytes, starts_with}
use resocks.Server.Http.{delimiter, find_end, plus_one}

starts_with-split : (p s : Bytes) → starts_with p s ≡ true → (rest : Bytes) × (s ≡ p ++ rest)
unfolding starts_with
starts_with-split [] s h = (s, refl)
starts_with-split (c ∷ p) [] h = cc
starts_with-split (c ∷ p) (x ∷ s) h =
    let (rest, e) = starts_with-split p s (ground arith) in (rest, ground arith)

pub find_end-cons :
    (x : ℕ) (xs : Bytes)
    → starts_with delimiter (x ∷ xs) ≡ false
    → find_end (x ∷ xs) ≡ plus_one (find_end xs)
unfolding find_end
find_end-cons x xs h = rw h refl

find_end-here :
    (x : ℕ) (xs : Bytes) → starts_with delimiter (x ∷ xs) ≡ true → find_end (x ∷ xs) ≡ some 0
unfolding find_end
find_end-here x xs h = rw h refl

pub same_start :
    (a b c d : ℕ) (xs ys : Bytes)
    → starts_with delimiter (a ∷ b ∷ c ∷ d ∷ xs) ≡ starts_with delimiter (a ∷ b ∷ c ∷ d ∷ ys)
unfolding starts_with
same_start a b c d xs ys = refl

-- Where the search ends: at the first byte, or behind it.
Here : ℕ → Bytes → ℕ → Type 0
Here x xs pos =
    ((starts_with delimiter (x ∷ xs) ≡ true) × (pos ≡ 0))
    ⊎ ((n : ℕ) × (starts_with delimiter (x ∷ xs) ≡ false) × (find_end xs ≡ some n) × (pos ≡ suc n))

find_end-Here : (x : ℕ) (xs : Bytes) (pos : ℕ) → find_end (x ∷ xs) ≡ some pos → Here x xs pos
unfolding Here
find_end-Here x xs pos h = elim (Bool-cases (starts_with delimiter (x ∷ xs))) [
  | inl here ↦ inl (here, ground (arith, find_end-here x xs here))
  | inr later ↦ elim (Option-cases (find_end xs)) [
    | inl absent ↦ let e = find_end-cons x xs later in cc (rw absent at (sym e ∙ h))
    | inr (n, found) ↦ inr (n, later, found, ground (arith, find_end-cons x xs later))
  ]
]

pub find_end-split :
    (s : Bytes) (pos : ℕ)
    → find_end s ≡ some pos
    → (front rest : Bytes) × (length front ≡ pos) × (s ≡ front ++ (delimiter ++ rest))
unfolding Here
find_end-split [] pos h = unfold find_end in cc
find_end-split (x ∷ s) pos h = elim (find_end-Here x s pos h) [
  | inl (here, z) ↦ let (rest, e) = starts_with-split delimiter (x ∷ s) here in ([], rest, sym z, e)
  | inr (n, later, found, z) ↦
      let (front, rest, l, e) = find_end-split s n found in
      (x ∷ front, rest, ap suc l ∙ sym z, ap (λ t. x ∷ t) e)
]

-- More bytes change nothing about a delimiter that was found.
pub find_end-keep : (s t : Bytes) (pos : ℕ) → find_end s ≡ some pos → find_end (s ++ t) ≡ some pos
unfolding Here
find_end-keep (a ∷ b ∷ c ∷ d ∷ s) t pos h =
    let same = same_start a b c d (s ++ t) s in
    elim (find_end-Here a (b ∷ c ∷ d ∷ s) pos h) [
      | inl (here, z) ↦ find_end-here a (b ∷ c ∷ d ∷ (s ++ t)) (same ∙ here) ∙ ap some (sym z)
      | inr (n, later, found, z) ↦
          find_end-cons a (b ∷ c ∷ d ∷ (s ++ t)) (same ∙ later)
          ∙ ap plus_one (find_end-keep (b ∷ c ∷ d ∷ s) t n found)
          ∙ ap some (sym z)
    ]
find_end-keep [] t pos h = unfold find_end in cc
find_end-keep (a ∷ []) t pos h = unfold find_end starts_with in ground arith
find_end-keep (a ∷ b ∷ []) t pos h = unfold find_end starts_with in ground arith
find_end-keep (a ∷ b ∷ c ∷ []) t pos h = unfold find_end starts_with in ground arith

-- No delimiter stands before the one that is found.
pub find_end-le :
    (a b : Bytes) (pos : ℕ) → find_end (a ++ (delimiter ++ b)) ≡ some pos → pos ≤ length a
unfolding Here
find_end-le [] b pos h = unfold find_end starts_with in ground arith
find_end-le (x ∷ a) b pos h = elim (find_end-Here x (a ++ (delimiter ++ b)) pos h) [
  | inl (here, z) ↦ omega arith
  | inr (n, later, found, z) ↦ omega (arith, find_end-le a b n found)
]

pub drop-front :
    (front rest : Bytes) → drop (length front + 4) (front ++ (delimiter ++ rest)) ≡ rest
drop-front [] rest = refl
drop-front (x ∷ front) rest =
    let one_more : suc (length front) + 4 ≡ suc (length front + 4) = omega arith in
    rw one_more (drop-front front rest)
