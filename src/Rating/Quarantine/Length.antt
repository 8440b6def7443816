-- ===== src/Rating/Quarantine/Length.antt =====
-- quarantine.rs, `duration_for`: the loop with its early exit against the closed form.
use native.Mathlib.Nat.{pow-suc}
use resocks.Base.{
  ℕ, zero, suc, ◌-◌, ◌*◌, ◌^◌, ◌≤◌, min, ◌≡◌, ◌∙◌, ap, ◌||◌, inl, inr, arith, leb, ◌==◌, Bool-cases,
}
use resocks.Base.Words.{duration_max, saturating_double}
use resocks.Rating.Quarantine.{QuarantinePolicy, double_until, duration_for}

pow_pos : (n : ℕ) → 1 ≤ 2 ^ n
pow_pos zero = omega arith
pow_pos (suc n) = rw pow-suc (omega (arith, pow_pos n))

le-mul-pow : (a n : ℕ) → a ≤ a * 2 ^ n
le-mul-pow a n = grind (arith, pow_pos n)

min-double_until :
    (rounds bound length : ℕ)
    → length ≤ duration_max
    → bound ≤ duration_max
    → min (double_until rounds bound length) bound ≡ min (length * 2 ^ rounds) bound
unfolding double_until
min-double_until zero bound length l c = omega arith
min-double_until (suc rounds) bound length l c =
    elim (Bool-cases
      ((saturating_double length == length) || leb bound (saturating_double length))) [
        | inl stop ↦ rw (pow-suc, stop) (ground (arith, le-mul-pow length rounds))
        | inr go ↦
            let exact : saturating_double length ≡ length * 2 = ground arith in
            let power : saturating_double length * 2 ^ rounds ≡ length * (2 ^ rounds * 2) =
              rw exact (omega arith) in
            rw (pow-suc, go)
              (min-double_until rounds bound (saturating_double length) (omega arith) c
                ∙ ap (λ t. min t bound) power)
      ]

-- The `n`-th quarantine lasts `initial`, doubled once for each earlier one, and `max` at most, for
-- every policy whose times are durations.
pub duration_for_closed :
    (p : QuarantinePolicy) (trips : ℕ)
    → p.initial ≤ duration_max
    → p.max ≤ duration_max
    → duration_for p trips ≡ min (p.initial * 2 ^ (trips - 1)) p.max
unfolding duration_for
duration_for_closed p trips = min-double_until (trips - 1) p.max p.initial
