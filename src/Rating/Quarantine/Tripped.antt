-- ===== src/Rating/Quarantine/Tripped.antt =====
-- quarantine.rs, `trip_now` and `is_tripped`.
use resocks.Base.{ℕ, ◌≡◌, refl, true}
use resocks.Rating.Quarantine.{Cell, QuarantinePolicy, is_tripped, trip_now}

pub is_tripped-trip_now :
    (instant_max : ℕ) (c : Cell) (now : ℕ) (p : QuarantinePolicy)
    → is_tripped (trip_now instant_max c now p).0 ≡ true
unfolding is_tripped trip_now
is_tripped-trip_now instant_max c now p = refl
