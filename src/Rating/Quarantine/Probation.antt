-- ===== src/Rating/Quarantine/Probation.antt =====
-- quarantine.rs: the probe lease, the failed probe, and the end of a quarantine.
use resocks.Base.{
  ℕ, suc, ◌+◌, ◌-◌, ◌*◌, ◌^◌, ◌≤◌, ◌<◌, min, ◌≡◌, ◌∙◌, ap, true, some, arith, ltb, leb,
  if◌then◌else◌,
}
use resocks.Base.Words.{u32_max, duration_max, saturating_suc}
use resocks.Rating.Quarantine.History.{IsConsistent}
use resocks.Rating.Quarantine.Length.{duration_for_closed}
use resocks.Rating.Quarantine.{
  QuarantinePolicy, Cell, quarantined, probation, state, hard_failure, try_lease, deadline, far,
  duration_for,
}

module _ (instant_max : ℕ) where
  -- A quarantine ends no later than its length says, and no earlier, unless that end is past the
  -- clock's range: then it lasts at least a hundred years. The clock itself has a hundred years left.
  pub deadline_bounds :
      (now length : ℕ)
      → now + far ≤ instant_max
      → (now + min length far ≤ deadline instant_max now length)
        × (deadline instant_max now length ≤ now + length)
        × (now + length ≤ instant_max → deadline instant_max now length ≡ now + length)
  unfolding deadline
  deadline_bounds now length h = (ground arith, ground arith, λ fits. ground arith)

  module _ (c : Cell) (p : QuarantinePolicy) (now later : ℕ)
      (granted : (try_lease instant_max c now p).1 ≡ true) where
    -- Once a probe is granted, the next one is granted exactly from the lease's end on, if the
    -- clock represents that end.
    pub lease_exclusive :
        now + p.probe_lease ≤ instant_max
        → now ≤ later
        → (try_lease instant_max (try_lease instant_max c now p).0 later p).1
          ≡ leb (now + p.probe_lease) later
    unfolding try_lease
    lease_exclusive h k = ground arith

    -- If the clock does not represent the lease's end, the lease ends at once: every later call is
    -- granted a second probe.
    pub lease_overflow :
        instant_max < now + p.probe_lease
        → now ≤ later
        → (try_lease instant_max (try_lease instant_max c now p).0 later p).1 ≡ true
    unfolding try_lease
    lease_overflow h k = ground arith

  -- A hard failure on probation quarantines again, for `initial` doubled once for each earlier
  -- trip and capped by `max`; the upstream is quarantined until exactly then, and on probation
  -- after. The cell is consistent, and the numbers are in their types' ranges.
  pub probe_failure_retrips :
      (c : Cell) (p : QuarantinePolicy) (now later : ℕ)
      → IsConsistent p c
      → state c now ≡ probation
      → p.threshold ≤ u32_max
      → c.trips < u32_max
      → p.initial ≤ duration_max
      → p.max ≤ duration_max
      → now + min (p.initial * 2 ^ c.trips) p.max ≤ instant_max
      → ((hard_failure instant_max c now p).1 ≡ some (min (p.initial * 2 ^ c.trips) p.max))
        × (state (hard_failure instant_max c now p).0 later ≡ (
            if ltb later (now + min (p.initial * 2 ^ c.trips) p.max)
            then quarantined
            else probation))
  unfolding hard_failure deadline
  probe_failure_retrips c p now later v s t trips i m fits =
      let next : saturating_suc c.trips ≡ suc c.trips = omega arith in
      let trips_before : saturating_suc c.trips - 1 ≡ c.trips = omega arith in
      let length : duration_for p (saturating_suc c.trips) ≡ min (p.initial * 2 ^ c.trips) p.max =
        duration_for_closed p (saturating_suc c.trips) i m
        ∙ ap (λ n. min (p.initial * 2 ^ n) p.max) trips_before in
      ground arith
