-- ===== src/Rating/Ratings.antt =====
-- crates/resocks5-net/src/session/rating/mod.rs and health.rs: `Ratings`, the upstreams' sand and
-- quarantine cells behind one lock. An operation runs under the lock, so a history of a shared
-- `Ratings` is a list of operations. `none` is a panic (an index out of range).
use Prim.Native.Nat.{Ordering}
use resocks.Base.{
  ℕ, zero, suc, ◌+◌, Bool, true, false, not, ◌&&◌, ◌||◌, Option, none, some, List, [], ◌∷◌, map,
  length, range_from, get_elem?, set, ltb, leb, ◌==◌, if◌then◌else◌,
}
use resocks.Rating.Float.{Float, f_zero}
use resocks.Rating.Policy.{RatingPolicy}
use resocks.Rating.Policy
use resocks.Rating.Quarantine.{
  QuarantinePolicy, Cell, State, healthy, quarantined, probation, is_state, state, default_cell,
  hard_failure, trip_now, success, try_lease, snapshot, restore, is_tripped,
}
use resocks.Rating.Quarantine
use resocks.Rating.Sand.{Sand, observe_failure, observe_success, weight}
use resocks.Rating.Sand
use resocks.Rating.Select.{weighted_index, weighted_keys, order_keys}
pub mod Eligible
pub mod Healthy
pub mod History
pub mod Invariant
pub mod Leases
pub mod Probes
pub mod Tripped
pub mod Untouched

-- `UpstreamState` and `Health` of health.rs.
pub data UpstreamState : Type 0 where
  alive backing_off on_probation : UpstreamState

pub record Health : Type 0 where
  pub state : UpstreamState
  pub remaining : ℕ
  pub trips : ℕ
  pub consecutive : ℕ

abbrev pub upstream_state : State → UpstreamState
upstream_state healthy = alive
upstream_state quarantined = backing_off
upstream_state probation = on_probation

abbrev pub is_alive : UpstreamState → Bool
is_alive alive = true
is_alive _ = false

abbrev pub is_backing_off : UpstreamState → Bool
is_backing_off backing_off = true
is_backing_off _ = false

module _ (f : Float) (instant_max : ℕ) where
  pub record Ratings : Type 0 where
    pub policy : RatingPolicy f
    pub quarantine : QuarantinePolicy
    pub cells : List (Sand f)
    pub states : List Cell
    pub rng : ℕ

  abbrev repeat {ℓ} : {A : Type ℓ} → ℕ → A → List A
  repeat zero a = []
  repeat (suc n) a = a ∷ repeat n a

  abbrev is_valid_policy : Quarantine.PolicyCheck → Bool
  is_valid_policy Quarantine.valid = true
  is_valid_policy _ = false

  abbrev is_none {ℓ} : {A : Type ℓ} → Option A → Bool
  is_none none = true
  is_none (some a) = false

  -- `try_with_quarantine` at an instant, with the seed that `SmallRng::from_os` gives; `none` is
  -- `Err(InvalidPolicy)`.
  unfoldable pub try_with_quarantine :
      ℕ → RatingPolicy f → QuarantinePolicy → ℕ → ℕ → Option Ratings
  try_with_quarantine n policy quarantine now seed =
      if not (is_none (Policy.validate f policy))
      then none
      else if not (is_valid_policy (Quarantine.validate quarantine))
      then none
      else some (record {
        policy = policy;
        quarantine = quarantine;
        cells = repeat n (Sand.new f now);
        states = repeat n default_cell;
        rng = seed;
      })

  abbrev set_cell : Ratings → ℕ → Sand f → Ratings
  set_cell r i c = record r { cells = set r.cells i c }

  abbrev set_state : Ratings → ℕ → Cell → Ratings
  set_state r i c = record r { states = set r.states i c }

  -- `if i < cells.len() { cells[i] = g(cells[i]) }`.
  abbrev update_sand : Ratings → ℕ → (Sand f → Sand f) → Ratings
  update_sand r i g = elim (get_elem? r.cells i) [ none ↦ r | some c ↦ set_cell r i (g c) ]

  pub on_failure : Ratings → ℕ → ℕ → Ratings
  on_failure r i now =
      if Policy.enabled f r.policy
      then update_sand r i (λ c. observe_failure f c now r.policy)
      else r

  -- The last line of `on_hard_failure_at`: `quarantine[i]` panics out of range.
  fail_state : Ratings → ℕ → ℕ → Option (Ratings × Option ℕ)
  fail_state r i now = elim (get_elem? r.states i) [
    | none ↦ none
    | some c ↦
        let (c', length) = hard_failure instant_max c now r.quarantine in
        some (set_state r i c', length)
  ]

  pub on_hard_failure_at : Ratings → ℕ → ℕ → Option (Ratings × Option ℕ)
  unfolding on_failure fail_state
  on_hard_failure_at r i now =
      if leb (length r.cells) i
      then some (r, none)
      else if not (Quarantine.enabled r.quarantine)
      then some (on_failure r i now, none)
      else fail_state (on_failure r i now) i now

  unfoldable pub quarantine_now : Ratings → ℕ → ℕ → Ratings × Option ℕ
  quarantine_now r i now =
      if not (Quarantine.enabled r.quarantine) then (r, none) else elim (get_elem? r.states i) [
        | none ↦ (r, none)
        | some c ↦
            let (c', length) = trip_now instant_max c now r.quarantine in
            (set_state r i c', some length)
      ]

  -- `quarantine[i].success()` panics out of range.
  clear_state : Ratings → ℕ → Option Ratings
  clear_state r i = elim (get_elem? r.states i) [
    | none ↦ none
    | some c ↦ some (set_state r i (success c))
  ]

  pub on_success : Ratings → ℕ → ℕ → Option Ratings
  unfolding clear_state
  on_success r i now =
      if leb (length r.cells) i
      then some r
      else if Policy.enabled f r.policy
      then clear_state (update_sand r i (λ c. observe_success f c now r.policy)) i
      else clear_state r i

  pub is_quarantined : Ratings → ℕ → Bool
  is_quarantined r i = elim (get_elem? r.states i) [ none ↦ false | some c ↦ is_tripped c ]

  unfoldable pub weights : Ratings → ℕ → List f.F
  weights r now = map (λ c. weight f c now r.policy) r.cells

  abbrev pub is_healthy : ℕ → Cell → Bool
  is_healthy now c = is_state (state c now) healthy

  abbrev pub any_healthy : ℕ → List Cell → Bool
  any_healthy now [] = false
  any_healthy now (c ∷ cs) = is_healthy now c || any_healthy now cs

  -- `for (w, ok) in weights.iter_mut().zip(healthy) { if !ok { *w = 0.0 } }`.
  abbrev mask : ℕ → List f.F → List Cell → List f.F
  mask now [] cs = []
  mask now (w ∷ ws) [] = w ∷ ws
  mask now (w ∷ ws) (c ∷ cs) = (if is_healthy now c then w else f_zero f) ∷ mask now ws cs

  pub pick_weights : Ratings → ℕ → List f.F
  unfolding weights
  pick_weights r now =
      if Quarantine.enabled r.quarantine && any_healthy now r.states
      then mask now (weights r now) r.states
      else weights r now

  -- The new ratings and the index; `none` is the panic on an empty set.
  pub pick_at : Ratings → ℕ → Option (Ratings × ℕ)
  unfolding pick_weights
  pick_at r now =
      let (rng', i) = weighted_index f (pick_weights r now) r.rng in
      if length (pick_weights r now) == 0 then none else some (record r { rng = rng' }, i)

  -- `(i..).filter(|&i| quarantine[i].state(now) == Healthy)` over the cells from the index `i` on.
  healthy_from : ℕ → ℕ → List Cell → List ℕ
  healthy_from now i [] = []
  healthy_from now i (c ∷ cs) =
      if is_healthy now c then i ∷ healthy_from now (suc i) cs else healthy_from now (suc i) cs

  unfoldable pub eligible : Ratings → ℕ → List ℕ
  unfolding healthy_from
  eligible r now =
      if Quarantine.enabled r.quarantine && any_healthy now r.states
      then healthy_from now 0 r.states
      else range_from 0 (length r.cells)

  -- `.map(|&i| cells[i].weight(now, ..))`; `none` is a panic.
  weights_at : Ratings → ℕ → List ℕ → Option (List f.F)
  weights_at r now [] = some []
  weights_at r now (i ∷ is) = elim (get_elem? r.cells i) [
    | none ↦ none
    | some c ↦ elim (weights_at r now is) [
      | none ↦ none
      | some ws ↦ some (weight f c now r.policy ∷ ws)
    ]
  ]

  -- `.map(|j| eligible[j])`; `none` is a panic.
  select_all : List ℕ → List ℕ → Option (List ℕ)
  select_all from [] = some []
  select_all from (j ∷ js) = elim (get_elem? from j) [
    | none ↦ none
    | some i ↦ elim (select_all from js) [ none ↦ none | some is ↦ some (i ∷ is) ]
  ]

  abbrev with_rng : Ratings → ℕ → Option (List ℕ) → Option (Ratings × List ℕ)
  with_rng r rng none = none
  with_rng r rng (some order) = some (record r { rng = rng }, order)

  pub pick_order_at : Ratings → ℕ → Option (Ratings × List ℕ)
  unfolding eligible weights_at select_all
  pick_order_at r now = elim (weights_at r now (eligible r now)) [
    | none ↦ none
    | some ws ↦
        let (rng', keyed) = weighted_keys f ws r.rng in
        with_rng r rng' (select_all (eligible r now) (order_keys f keyed))
  ]

  -- `.iter_mut().enumerate().filter_map(..)` over the cells from the index `i` on.
  unfoldable pub probes_from : QuarantinePolicy → ℕ → ℕ → List Cell → List Cell × List ℕ
  probes_from p now i [] = ([], [])
  probes_from p now i (c ∷ cs) =
      let (c', granted) = try_lease instant_max c now p in
      let (cs', is) = probes_from p now (suc i) cs in (c' ∷ cs', if granted then i ∷ is else is)

  unfoldable pub take_probes_at : Ratings → ℕ → Ratings × List ℕ
  unfolding probes_from
  take_probes_at r now =
      let (states', probes) = probes_from r.quarantine now 0 r.states in
      if not (Quarantine.enabled r.quarantine)
      then (r, [])
      else (record r { states = states' }, probes)

  health_of : ℕ → Cell → Health
  health_of now c =
      let s = snapshot c now in
      record {
        state = upstream_state s.state;
        remaining = s.left;
        trips = s.trips;
        consecutive = s.consecutive;
      }

  pub health_at : Ratings → ℕ → List Health
  unfolding health_of
  health_at r now = map (health_of now) r.states

  pub restore_health_at : Ratings → ℕ → Health → ℕ → Ratings × Bool
  restore_health_at r i h now =
      if not (Quarantine.enabled r.quarantine) || is_alive h.state
      then (r, false)
      else elim (get_elem? r.states i) [
        | none ↦ (r, false)
        | some c ↦ (
          set_state r i (
              restore instant_max c (is_backing_off h.state) h.remaining h.trips h.consecutive now
                r.quarantine),
          true,
        )
      ]
