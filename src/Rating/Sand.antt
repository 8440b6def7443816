-- ===== src/Rating/Sand.antt =====
-- crates/resocks5-net/src/session/rating/sand.rs: one upstream's sand, which decays with time.
-- Instants count nanoseconds.
use resocks.Base.{ℕ, ◌-◌, if◌then◌else◌}
use resocks.Rating.Float.{Float, f_zero}
use resocks.Rating.Policy.{RatingPolicy, tau, k}

module _ (f : Float) where
  open f use {F, ratio, as_secs_f64, add, mul, div, neg, exp, fmin, lt}

  pub record Sand : Type 0 where
    pub level : F
    pub last : ℕ

  unfoldable pub new : ℕ → Sand
  new now = record { level = f_zero f; last = now }

  unfoldable pub level_at : Sand → ℕ → RatingPolicy f → F
  level_at s now p =
      let dt = as_secs_f64 (now - s.last) in
      let decayed = mul s.level (exp (div (neg dt) (tau f p))) in
      if lt decayed (mul p.sand_max (ratio 1 1_000_000)) then f_zero f else decayed

  pub observe_failure : Sand → ℕ → RatingPolicy f → Sand
  unfolding level_at
  observe_failure s now p = record {
    level = fmin (add (level_at s now p) p.fail_penalty) p.sand_max;
    last = now;
  }

  pub observe_success : Sand → ℕ → RatingPolicy f → Sand
  unfolding level_at
  observe_success s now p = record { level = mul (level_at s now p) p.success_factor; last = now }

  unfoldable pub weight : Sand → ℕ → RatingPolicy f → F
  unfolding level_at
  weight s now p = exp (mul (neg (k f p)) (level_at s now p))
