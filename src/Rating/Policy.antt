-- ===== src/Rating/Policy.antt =====
-- crates/resocks5-net/src/session/rating/policy.rs: the knobs of the sand model and their check.
use resocks.Base.{Bool, not, ◌&&◌, ◌||◌, Option, none, some, if◌then◌else◌}
use resocks.Rating.Float.{Float, f_zero, f_one}

pub data PolicyError : Type 0 where
  not_finite half_life_not_positive tau_not_finite sand_max_not_positive : PolicyError
  min_weight_out_of_range min_weight_subnormal success_factor_out_of_range : PolicyError
  fail_penalty_negative k_not_finite fresh_weight_not_finite saturated_weight_not_finite :
      PolicyError

module _ (f : Float) where
  open f use {F, ratio, div, mul, neg, exp, ln, lt, le, is_finite, min_positive, ln_2}

  pub record RatingPolicy : Type 0 where
    pub half_life_sec : F
    pub fail_penalty : F
    pub sand_max : F
    pub min_weight : F
    pub success_factor : F

  abbrev pub default_policy : RatingPolicy
  default_policy = record {
    half_life_sec = ratio 30 1;
    fail_penalty = ratio 1 1;
    sand_max = ratio 8 1;
    min_weight = ratio 5 100;
    success_factor = ratio 5 10;
  }

  pub enabled : RatingPolicy → Bool
  enabled p = lt (f_zero f) p.fail_penalty

  unfoldable pub tau : RatingPolicy → F
  tau p = div p.half_life_sec ln_2

  unfoldable pub k : RatingPolicy → F
  k p = div (ln (div (f_one f) p.min_weight)) p.sand_max

  all_finite : RatingPolicy → Bool
  all_finite p =
      is_finite p.half_life_sec
      && is_finite p.fail_penalty
      && is_finite p.sand_max
      && is_finite p.min_weight
      && is_finite p.success_factor

  -- The checks behind the fields' ranges, on the values that the model computes from them.
  derived_error : RatingPolicy → Option PolicyError
  unfolding k
  derived_error p =
      if not (is_finite (k p))
      then some k_not_finite
      else if not (is_finite (exp (mul (neg (k p)) (f_zero f))))
      then some fresh_weight_not_finite
      else if not (is_finite (exp (mul (neg (k p)) p.sand_max)))
      then some saturated_weight_not_finite
      else none

  -- `validate`; `none` is `Ok(())`.
  unfoldable pub validate : RatingPolicy → Option PolicyError
  unfolding all_finite derived_error tau
  validate p =
      if not (all_finite p)
      then some not_finite
      else if le p.half_life_sec (f_zero f)
      then some half_life_not_positive
      else if not (is_finite (tau p))
      then some tau_not_finite
      else if le p.sand_max (f_zero f)
      then some sand_max_not_positive
      else if le p.min_weight (f_zero f) || lt (f_one f) p.min_weight
      then some min_weight_out_of_range
      else if lt p.min_weight min_positive
      then some min_weight_subnormal
      else if not (le (f_zero f) p.success_factor && le p.success_factor (f_one f))
      then some success_factor_out_of_range
      else if lt p.fail_penalty (f_zero f)
      then some fail_penalty_negative
      else derived_error p
