-- ===== src/Rating/Quarantine.antt =====
-- crates/resocks5-net/src/session/rating/quarantine.rs: the policy and one upstream's cell.
-- A duration and an instant count nanoseconds. `instant_max` is the last instant that the
-- platform's clock represents.
pub mod Length
pub mod History
pub mod Probation
pub mod Restart
pub mod Tripped
use resocks.Base.{
  ℕ, zero, suc, ◌+◌, ◌-◌, ◌*◌, min, max, Bool, true, false, not, ◌&&◌, ◌||◌, Option, none, some,
  ltb, leb, ◌==◌, if◌then◌else◌,
}
use resocks.Base.Words.{saturating_suc, saturating_double, from_secs}

pub record QuarantinePolicy : Type 0 where
  pub threshold : ℕ
  pub initial : ℕ
  pub max : ℕ
  pub probe_lease : ℕ

abbrev pub default_policy : QuarantinePolicy
default_policy = record {
  threshold = 3;
  initial = from_secs 30;
  max = from_secs 600;
  probe_lease = from_secs 25;
}

abbrev pub disabled : QuarantinePolicy
disabled = record default_policy { threshold = 0 }

abbrev pub enabled : QuarantinePolicy → Bool
enabled p = ltb 0 p.threshold

pub data PolicyCheck : Type 0 where
  valid zero_initial max_below_initial zero_probe_lease : PolicyCheck

unfoldable pub validate : QuarantinePolicy → PolicyCheck
validate p =
    if not (enabled p)
    then valid
    else if p.initial == 0
    then zero_initial
    else if ltb p.max p.initial
    then max_below_initial
    else if p.probe_lease == 0
    then zero_probe_lease
    else valid

-- The loop of `duration_for` with its early exit; the number counts the rounds left.
double_until : ℕ → ℕ → ℕ → ℕ
double_until zero cap length = length
double_until (suc rounds) cap length =
    let doubled = saturating_double length in
    let rest = double_until rounds cap doubled in
    if (doubled == length) || leb cap doubled then doubled else rest

unfoldable pub duration_for : QuarantinePolicy → ℕ → ℕ
unfolding double_until
duration_for p trips = min (double_until (trips - 1) p.max p.initial) p.max

pub data State : Type 0 where
  healthy quarantined probation : State

abbrev pub is_state : State → State → Bool
is_state healthy healthy = true
is_state quarantined quarantined = true
is_state probation probation = true
is_state _ _ = false

pub record Cell : Type 0 where
  pub consecutive : ℕ
  pub trips : ℕ
  pub until : Option ℕ
  pub lease_until : Option ℕ

abbrev pub default_cell : Cell
default_cell = record { consecutive = 0; trips = 0; until = none; lease_until = none }

abbrev state_of : Option ℕ → ℕ → State
state_of none now = healthy
state_of (some until) now = if ltb now until then quarantined else probation

unfoldable pub state : Cell → ℕ → State
state c now = state_of c.until now

abbrev is_some {ℓ} : {A : Type ℓ} → Option A → Bool
is_some none = false
is_some (some a) = true

pub is_tripped : Cell → Bool
is_tripped c = is_some c.until

-- `self.lease_until.is_some_and(|lease| now < lease)`.
abbrev pub lease_held : Option ℕ → ℕ → Bool
lease_held none now = false
lease_held (some lease) now = ltb now lease

abbrev or_else {ℓ} : {A : Type ℓ} → Option A → Option A → Option A
or_else none b = b
or_else (some a) b = some a

abbrev unwrap_or {ℓ} : {A : Type ℓ} → Option A → A → A
unwrap_or none d = d
unwrap_or (some a) d = a

-- `const FAR`, a hundred years.
abbrev pub far : ℕ
far = from_secs (100 * 365 * 24 * 3600)

module _ (instant_max : ℕ) where
  -- `Instant::checked_add`.
  abbrev pub checked_add : ℕ → ℕ → Option ℕ
  checked_add now length = if leb (now + length) instant_max then some (now + length) else none

  unfoldable pub deadline : ℕ → ℕ → ℕ
  deadline now length = unwrap_or (or_else (checked_add now length) (checked_add now far)) now

  -- The last three lines that `hard_failure` and `trip_now` share.
  trip : Cell → ℕ → QuarantinePolicy → Cell × ℕ
  trip c now p =
      let trips = saturating_suc c.trips in
      let length = duration_for p trips in
      (record c { trips = trips; until = some (deadline now length) }, length)

  pub hard_failure : Cell → ℕ → QuarantinePolicy → Cell × Option ℕ
  unfolding state trip
  hard_failure c now p =
      if is_state (state c now) quarantined
      then (c, none)
      else let counted = record c {
        lease_until = none;
        consecutive = saturating_suc c.consecutive;
      } in
        let (tripped, length) = trip counted now p in
        if ltb counted.consecutive p.threshold then (counted, none) else (tripped, some length)

  unfoldable pub trip_now : Cell → ℕ → QuarantinePolicy → Cell × ℕ
  unfolding trip
  trip_now c now p =
      trip (record c { lease_until = none; consecutive = max c.consecutive p.threshold }) now p

  pub restore : Cell → Bool → ℕ → ℕ → ℕ → ℕ → QuarantinePolicy → Cell
  restore c is_quarantined left trips consecutive now p =
      let left = if is_quarantined then min left p.max else 0 in
      record c {
        lease_until = none;
        trips = max trips 1;
        consecutive = max consecutive p.threshold;
        until = some (deadline now left);
      }

  unfoldable pub try_lease : Cell → ℕ → QuarantinePolicy → Cell × Bool
  unfolding state
  try_lease c now p =
      if not (is_state (state c now) probation)
      then (c, false)
      else if lease_held c.lease_until now
      then (c, false)
      else (record c { lease_until = some (unwrap_or (checked_add now p.probe_lease) now) }, true)

abbrev left_of : State → Option ℕ → ℕ → ℕ
left_of quarantined (some until) now = until - now
left_of _ _ now = 0

pub record Snapshot : Type 0 where
  pub state : State
  pub left : ℕ
  pub trips : ℕ
  pub consecutive : ℕ

unfoldable pub snapshot : Cell → ℕ → Snapshot
unfolding state
snapshot c now = record {
  state = state c now;
  left = left_of (state c now) c.until now;
  trips = c.trips;
  consecutive = c.consecutive;
}

pub success : Cell → Cell
success c = default_cell
