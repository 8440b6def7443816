-- ===== src/Rotator/Order.antt =====
-- session/rotator/mod.rs: the items of the sticky cache's two ordered sets.
use resocks.Base.{ℕ, ◌≤◌, ◌≡◌, Bool, true, false, ◌&&◌, ◌||◌, [], ◌∷◌, ltb, ◌==◌, arith}
use resocks.Rust.Collections.{Ordered}
use resocks.Rust.Text.{Bytes, bytes_eq, bytes_eq_refl, bytes_eq_sound}

-- `str`'s order.
unfoldable pub bytes_lt : Bytes → Bytes → Bool
bytes_lt xs [] = false
bytes_lt [] (y ∷ ys) = true
bytes_lt (x ∷ xs) (y ∷ ys) = ltb x y || (x == y && bytes_lt xs ys)

-- `(Instant, u64, Arc<str>)` and `(Instant, Arc<str>)`, with the derived order of tuples.
abbrev pub Recency : Type 0
Recency = ℕ × ℕ × Bytes

abbrev pub Expiry : Type 0
Expiry = ℕ × Bytes

abbrev pub recency_eq : Recency → Recency → Bool
recency_eq (a, g, k) (b, h, j) = a == b && (g == h && bytes_eq k j)

abbrev pub recency_lt : Recency → Recency → Bool
recency_lt (a, g, k) (b, h, j) = ltb a b || (a == b && (ltb g h || (g == h && bytes_lt k j)))

abbrev pub expiry_eq : Expiry → Expiry → Bool
expiry_eq (a, k) (b, j) = a == b && bytes_eq k j

abbrev pub expiry_lt : Expiry → Expiry → Bool
expiry_lt (a, k) (b, j) = ltb a b || (a == b && bytes_lt k j)

pub recency_eq_refl : (a : Recency) → recency_eq a a ≡ true
recency_eq_refl (a, g, k) = ground (arith, bytes_eq_refl k)

pub recency_eq_sound : (a b : Recency) → recency_eq a b ≡ true → a ≡ b
recency_eq_sound (a, g, k) (b, h, j) e = ground (arith, bytes_eq_sound k j)

pub recency_lt-le : (a b : Recency) → recency_lt a b ≡ true → a.0 ≤ b.0
recency_lt-le (a, g, k) (b, h, j) e = ground arith

pub not_recency_lt-le : (a b : Recency) → recency_lt a b ≡ false → b.0 ≤ a.0
not_recency_lt-le (a, g, k) (b, h, j) e = ground arith

pub expiry_eq_refl : (a : Expiry) → expiry_eq a a ≡ true
expiry_eq_refl (a, k) = ground (arith, bytes_eq_refl k)

pub expiry_eq_sound : (a b : Expiry) → expiry_eq a b ≡ true → a ≡ b
expiry_eq_sound (a, k) (b, j) e = ground (arith, bytes_eq_sound k j)

pub expiry_lt-le : (a b : Expiry) → expiry_lt a b ≡ true → a.0 ≤ b.0
expiry_lt-le (a, k) (b, j) e = ground arith

pub not_expiry_lt-le : (a b : Expiry) → expiry_lt a b ≡ false → b.0 ≤ a.0
not_expiry_lt-le (a, k) (b, j) e = ground arith

abbrev pub recency_order : Ordered Recency
recency_order = record {
  beq = recency_eq;
  lt = recency_lt;
  key = λ a. a.0;
  beq_refl = recency_eq_refl;
  beq_sound = recency_eq_sound;
  lt-le = recency_lt-le;
  not_lt-le = not_recency_lt-le;
}

abbrev pub expiry_order : Ordered Expiry
expiry_order = record {
  beq = expiry_eq;
  lt = expiry_lt;
  key = λ a. a.0;
  beq_refl = expiry_eq_refl;
  beq_sound = expiry_eq_sound;
  lt-le = expiry_lt-le;
  not_lt-le = not_expiry_lt-le;
}
