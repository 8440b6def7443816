-- ===== src/Rating/Quarantine/History.antt =====
-- quarantine.rs: one cell under every sequence of calls, each made at its own instant.
use resocks.Base.{
  ℕ, suc, ◌+◌, ◌≤◌, ◌<◌, min, ◌≡◌, refl, Bool, Option, none, some, List, [], ◌∷◌, arith, length,
  ◌==◌, if◌then◌else◌,
}
use resocks.Base.Words.{u32_max, duration_max}
use resocks.Rating.Quarantine.Length.{duration_for_closed}
use resocks.Rating.Quarantine.{
  QuarantinePolicy, Cell, default_cell, healthy, state, hard_failure, trip_now, restore, success,
  try_lease,
}

-- What a clear cell and a tripped one hold, by the quarantine's end.
abbrev Holds : QuarantinePolicy → Cell → Option ℕ → Type 0
Holds p c none = (c.trips ≡ 0) × (c.lease_until ≡ none) × (c.consecutive < p.threshold)
Holds p c (some _) = (1 ≤ c.trips) × (p.threshold ≤ c.consecutive)

abbrev pub IsConsistent : QuarantinePolicy → Cell → Type 0
IsConsistent p c = Holds p c c.until

pub data Call : Type 0 where
  fails trips_now succeeds leases : Call
  restores : Bool → ℕ → ℕ → ℕ → Call

module _ (instant_max : ℕ) (p : QuarantinePolicy) where
  abbrev pub after : Cell → ℕ × Call → Cell
  after c (now, fails) = (hard_failure instant_max c now p).0
  after c (now, trips_now) = (trip_now instant_max c now p).0
  after c (now, succeeds) = success c
  after c (now, leases) = (try_lease instant_max c now p).0
  after c (now, restores q left trips streak) = restore instant_max c q left trips streak now p

  abbrev pub run : Cell → List (ℕ × Call) → Cell
  run c [] = c
  run c (call ∷ calls) = run (after c call) calls

module _ (instant_max : ℕ) (p : QuarantinePolicy) (t : p.threshold ≤ u32_max) where
  hard_failure-IsConsistent :
      (c : Cell) (now : ℕ) → IsConsistent p c → IsConsistent p (hard_failure instant_max c now p).0
  unfolding hard_failure
  hard_failure-IsConsistent c now v = ground arith

  pub after-IsConsistent :
      (c : Cell) (call : ℕ × Call)
      → 0 < p.threshold
      → IsConsistent p c
      → IsConsistent p (after instant_max p c call)
  after-IsConsistent c (now, fails) h v = hard_failure-IsConsistent c now v
  after-IsConsistent c (now, trips_now) h v = unfold trip_now in omega arith
  after-IsConsistent c (now, succeeds) h v = unfold success in (refl, refl, h)
  after-IsConsistent c (now, leases) h v = unfold try_lease in ground arith
  after-IsConsistent c (now, restores q left trips streak) h v = unfold restore in omega arith

  -- After any calls on a new cell, at any instants: a clear cell has no trips and no lease and a
  -- streak below the threshold; a tripped one has tripped at least once, on a streak that has
  -- reached the threshold. The threshold lies between 1 and the largest `u32`.
  pub run-IsConsistent :
      (calls : List (ℕ × Call))
      → 0 < p.threshold
      → IsConsistent p (run instant_max p default_cell calls)
  run-IsConsistent calls h = go calls default_cell (refl, refl, h)
    where
      go :
          (calls : List (ℕ × Call)) (c : Cell)
          → IsConsistent p c
          → IsConsistent p (run instant_max p c calls)
      go [] c v = v
      go (call ∷ calls) c v = go calls (after instant_max p c call) (after-IsConsistent c call h v)

  abbrev pub fail_all : Cell → List ℕ → Cell
  fail_all c [] = c
  fail_all c (now ∷ later) = fail_all (hard_failure instant_max c now p).0 later

  -- Failures below the threshold only count.
  fail_all_below :
      (c : Cell) (instants : List ℕ)
      → c.until ≡ none
      → c.lease_until ≡ none
      → c.consecutive + length instants < p.threshold
      → fail_all c instants ≡ record c { consecutive = c.consecutive + length instants }
  unfolding hard_failure
  fail_all_below c [] u l h = ground arith
  fail_all_below c (now ∷ later) u l h =
      ground (arith, fail_all_below (record c { consecutive = suc c.consecutive }) later)

  -- The failure that completes a streak of `threshold`, at whatever instants, quarantines for
  -- `initial`, capped by `max`; before it the upstream stays healthy and no length is reported.
  pub streak_trips :
      (instants : List ℕ) (now : ℕ)
      → p.initial ≤ duration_max
      → p.max ≤ duration_max
      → length instants < p.threshold
      → (state (fail_all default_cell instants) now ≡ healthy)
        × ((hard_failure instant_max (fail_all default_cell instants) now p).1
            ≡ (if suc (length instants) == p.threshold then some (min p.initial p.max) else none))
  unfolding hard_failure
  streak_trips instants now i m h =
      rw (fail_all_below default_cell instants refl refl (omega arith))
        (refl, ground (arith, duration_for_closed p 1 i m))
