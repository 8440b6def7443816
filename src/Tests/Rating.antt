-- ===== src/Tests/Rating.antt =====
-- The rating's theorems on concrete policies, cells and upstreams.
use Prim.Native.Nat.{compare}
use mathlib.Core.List.{Perm}
use resocks.Base.{
  ℕ, ◌+◌, ◌-◌, ◌*◌, ◌/◌, min, max, ◌≡◌, ◌≢◌, refl, get_elem?, true, false, none, some, List, [],
  ◌∷◌, arith, leb, ltb,
}
use resocks.Base.Words.{from_secs}
use resocks.Rating.Float.{Float, FloatLaws}
use resocks.Rating.Policy
use resocks.Rating.Quarantine.{
  Cell, QuarantinePolicy, default_cell, default_policy, far, duration_for, state, healthy,
  quarantined, probation, Snapshot, snapshot, restore, is_state, hard_failure, try_lease, deadline,
  trip_now,
}
use resocks.Rating.Quarantine.History.{IsConsistent, Call, fails}
use resocks.Rating.Quarantine
use resocks.Rating.Quarantine.Length.{duration_for_closed}
use resocks.Rating.Quarantine.Probation.{lease_overflow}
use resocks.Rating.Ratings.{
  Ratings, try_with_quarantine, take_probes_at, pick_order_at, pick_at, weights, is_healthy,
  eligible, probes_from, quarantine_now,
}
use resocks.Rating.Ratings.Eligible.{pick_order_at-perm}
use resocks.Rating.Ratings.Healthy.{pick_at-healthy}
use resocks.Rating.Ratings.History.{run-IsSound}
use resocks.Rating.Ratings.Invariant.{Keeps}
use resocks.Rating.Ratings.History as Operations
use resocks.Rating.Ratings.Leases.{take_probes_at-exclusive}
use resocks.Rating.Ratings.Probes.{holds}
use resocks.Rating.Sand.{Sand}
use resocks.Rating.Sand
use resocks.Rating.Select.Index.{selects}

-- Thousandths. `exp` is read on negated numbers only, and 1 / (1 + x) stands for it.
abbrev pub thousandths : Float
thousandths = record {
  F = ℕ;
  ratio = λ n d. n * 1_000 / d;
  of_u64 = λ n. n * 1_000;
  as_secs_f64 = λ n. n / 1_000_000;
  infinity = 1_000_000_000_000;
  min_positive = 1;
  ln_2 = 693;
  add = ◌+◌;
  sub = ◌-◌;
  mul = λ a b. a * b / 1_000;
  div = λ a b. a * 1_000 / b;
  fmin = min;
  fmax = max;
  neg = λ a. a;
  exp = λ a. 1_000_000 / (1_000 + a);
  ln = λ a. a - 1_000;
  lt = ltb;
  le = leb;
  is_finite = λ _. true;
  total_cmp = compare;
}

abbrev thousandths_laws : FloatLaws thousandths
thousandths_laws = record { fmax-pos = λ m w h. ground arith; zero-not-lt = refl }

-- The last instant of the clock that the examples run on.
abbrev pub clock_end : ℕ
clock_end = from_secs 10_000_000_000

abbrev pub minute : ℕ
minute = from_secs 60

-- The fifth quarantine of the default policy: 30 s doubled four times.
duration_for_closed_example : duration_for default_policy 5 ≡ from_secs 480
duration_for_closed_example = duration_for_closed default_policy 5 (omega arith) (omega arith)

-- A cell that has failed three times in a row, a minute apart.
abbrev three_failures : List (ℕ × Call)
three_failures = (minute, fails) ∷ (2 * minute, fails) ∷ (3 * minute, fails) ∷ []

-- Quarantined until the instant 5 s, after three failures.
abbrev tripped : Cell
tripped = record { consecutive = 3; trips = 1; until = some (from_secs 5); lease_until = none }

granted_first : (try_lease clock_end tripped minute default_policy).1 ≡ true
unfolding try_lease
granted_first = refl

abbrev endless_lease : QuarantinePolicy
endless_lease = record default_policy { probe_lease = clock_end }

granted_endless : (try_lease clock_end tripped minute endless_lease).1 ≡ true
unfolding try_lease
granted_endless = refl

lease_overflow_example :
    (try_lease clock_end
      (try_lease clock_end tripped minute endless_lease).0
      minute
      endless_lease).1
    ≡ true
lease_overflow_example =
    lease_overflow clock_end tripped endless_lease minute minute granted_endless (omega arith)
      (omega arith)

tripped-IsConsistent : IsConsistent default_policy tripped
tripped-IsConsistent = (omega arith, omega arith)

tripped_probation : state tripped minute ≡ probation
unfolding state
tripped_probation = refl

tripped_early : state tripped (from_secs 3) ≢ healthy
unfolding state
tripped_early h = cc

abbrev three_upstreams : Ratings thousandths clock_end
three_upstreams = record {
  policy = Policy.default_policy thousandths;
  quarantine = default_policy;
  cells = Sand.new thousandths 0 ∷ Sand.new thousandths 0 ∷ Sand.new thousandths 0 ∷ [];
  states = tripped ∷ default_cell ∷ tripped ∷ [];
  rng = 42;
}

pick_order_at-perm_example :
    (rng : ℕ) × (order : List ℕ) × (pick_order_at thousandths clock_end three_upstreams minute
      ≡ some (record three_upstreams { rng = rng }, order))
    × Perm order (eligible thousandths clock_end three_upstreams minute)
pick_order_at-perm_example = pick_order_at-perm thousandths clock_end three_upstreams minute refl

second_healthy : is_healthy thousandths clock_end minute default_cell ≡ true
unfolding state
second_healthy = refl

second_drawable :
    selects thousandths (weights thousandths clock_end three_upstreams minute) 1 ≡ true
unfolding weights Sand.weight Sand.new Sand.level_at Policy.k Policy.tau
second_drawable = refl

pick_at-healthy_example :
    (rng : ℕ) × (i : ℕ) × (d : Cell) × (pick_at thousandths clock_end three_upstreams minute
      ≡ some (record three_upstreams { rng = rng }, i))
    × (get_elem? (tripped ∷ default_cell ∷ tripped ∷ []) i ≡ some d)
    × (is_healthy thousandths clock_end minute d ≡ true)
pick_at-healthy_example =
    pick_at-healthy thousandths clock_end thousandths_laws three_upstreams minute 1 default_cell
      refl refl refl second_healthy second_drawable

two_probes : holds (take_probes_at thousandths clock_end three_upstreams minute).1 2 ≡ true
unfolding take_probes_at probes_from try_lease
two_probes = refl

-- The second upstream is quarantined while the leases of the others hold.
abbrev meanwhile : List (ℕ × Operations.Operation)
meanwhile = (minute, Operations.quarantine 1) ∷ (from_secs 75, Operations.probes) ∷ []

abbrev leased : Cell
leased = record tripped { lease_until = some (from_secs 85) }

abbrev probing : Ratings thousandths clock_end
probing = record three_upstreams {
  states = leased ∷ record tripped { until = some (from_secs 90) } ∷ leased ∷ [];
}

result_of_run :
    Operations.run thousandths clock_end
      (take_probes_at thousandths clock_end three_upstreams minute).0
      meanwhile
    ≡ some probing
unfolding take_probes_at probes_from try_lease quarantine_now trip_now deadline duration_for
result_of_run = refl

take_probes_at-exclusive_example :
    holds (take_probes_at thousandths clock_end probing (from_secs 80)).1 2 ≡ false
take_probes_at-exclusive_example =
    take_probes_at-exclusive thousandths clock_end three_upstreams probing meanwhile minute
      (from_secs 80) 2 (omega arith) (omega arith) two_probes (omega arith) result_of_run

abbrev new_ratings : Ratings thousandths clock_end
new_ratings = record three_upstreams { states = default_cell ∷ default_cell ∷ default_cell ∷ [] }

abbrev operations : List (ℕ × Operations.Operation)
operations =
    (1, Operations.hard_failure 1)
    ∷ (2, Operations.quarantine 0)
    ∷ (3, Operations.order)
    ∷ (minute, Operations.probes)
    ∷ (minute, Operations.success 9)
    ∷ (minute, Operations.pick)
    ∷ []

policies_valid :
    try_with_quarantine thousandths clock_end 3
      (Policy.default_policy thousandths)
      default_policy
      0
      42
    ≡ some new_ratings
unfolding try_with_quarantine Policy.validate Quarantine.validate
policies_valid = refl

run-IsSound_example :
    Keeps thousandths clock_end 3 (Operations.run thousandths clock_end new_ratings operations)
run-IsSound_example =
    run-IsSound thousandths clock_end 3 (Policy.default_policy thousandths) default_policy 0 42
      new_ratings operations (omega arith) (omega arith) policies_valid
