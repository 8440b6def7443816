-- ===== src/Rating/Float.antt =====
-- `f64`, which the rating computes with and the checker has no numbers for: a type and the
-- operations that the code calls, as a parameter of every definition that uses them.
use Prim.Native.Nat.{Ordering}
use resocks.Base.{ℕ, Bool, true, false, ◌≡◌, ◌&&◌}

pub record Float : Type 1 where
  pub F : Type 0
  -- The literal with this numerator and denominator.
  pub ratio : ℕ → ℕ → F
  -- `x as f64`, and `Duration::as_secs_f64` of a number of nanoseconds.
  pub of_u64 : ℕ → F
  pub as_secs_f64 : ℕ → F
  pub infinity : F
  pub min_positive : F
  pub ln_2 : F
  pub add : F → F → F
  pub sub : F → F → F
  pub mul : F → F → F
  pub div : F → F → F
  pub fmin : F → F → F
  pub fmax : F → F → F
  pub neg : F → F
  pub exp : F → F
  pub ln : F → F
  pub lt : F → F → Bool
  pub le : F → F → Bool
  pub is_finite : F → Bool
  pub total_cmp : F → F → Ordering

module _ (f : Float) where
  open f use {F, ratio, lt, le, fmax, is_finite}

  abbrev pub f_zero : F
  f_zero = ratio 0 1

  abbrev pub f_one : F
  f_one = ratio 1 1

  -- `w > 0.0 && w.is_finite()`.
  abbrev pub selectable : F → Bool
  selectable w = is_finite w && lt f_zero w

  -- What `f64::max` and the order promise: the larger of anything and a positive number is
  -- positive, and zero is not.
  pub record FloatLaws : Type 0 where
    pub fmax-pos : (m w : F) → lt f_zero w ≡ true → le (fmax m w) f_zero ≡ false
    pub zero-not-lt : lt f_zero f_zero ≡ false
