-- ===== src/Rating/Ratings/Invariant.antt =====
-- mod.rs and health.rs: what every history of operations on one `Ratings` keeps.
use resocks.Base.{
  ℕ, ◌≤◌, ◌<◌, ◌≡◌, ◌∙◌, inl, inr, true, Option, none, some, length, length-set, get_elem?,
  get_elem?-total, All, All-set, All-get_elem?, Bool-cases, Option-cases, arith, ltb→lt, leb,
}
use resocks.Base.Words.{u32_max}
use resocks.Rating.Float.{Float}
use resocks.Rating.Policy
use resocks.Rating.Quarantine.History.{
  IsConsistent, Call, after, fails, trips_now, succeeds, after-IsConsistent,
}
use resocks.Rating.Quarantine.{
  Cell, QuarantinePolicy, hard_failure, trip_now, try_lease, success, restore, default_cell,
}
use resocks.Rating.Quarantine
use resocks.Rating.Ratings.{
  Ratings, on_failure, on_hard_failure_at, quarantine_now, on_success, fail_state, clear_state,
  set_state, update_sand,
}
use resocks.Rating.Sand.{Sand}

module _ (f : Float) (instant_max : ℕ) where
  -- One sand and one state for each of the `n` upstreams, each state consistent with the policy.
  pub record IsSound (n : ℕ) (r : Ratings f instant_max) : Type 0 where
    pub threshold_u32 : r.quarantine.threshold ≤ u32_max
    pub one_sand_each : length r.cells ≡ n
    pub one_state_each : length r.states ≡ n
    pub states_consistent :
        Quarantine.enabled r.quarantine ≡ true → All (IsConsistent r.quarantine) r.states

  -- An operation did not panic, and the new ratings are sound.
  abbrev pub Keeps : ℕ → Option (Ratings f instant_max) → Type 0
  Keeps n none = ⊥
  Keeps n (some r) = IsSound n r

  abbrev pub ratings_of {ℓ} :
      {B : Type ℓ} → Option (Ratings f instant_max × B) → Option (Ratings f instant_max)
  ratings_of none = none
  ratings_of (some (r, _)) = some r

  module _ (n : ℕ) where
    update_sand-IsSound :
        (r : Ratings f instant_max) (i : ℕ) (g : Sand f → Sand f)
        → IsSound n r
        → IsSound n (update_sand f instant_max r i g)
    update_sand-IsSound r i g s = elim (Option-cases (get_elem? r.cells i)) [
      | inl absent ↦ rw (absent, update_sand) s
      | inr (c, here) ↦
          rw (here, update_sand)
            (record {
              threshold_u32 = s.threshold_u32;
              one_sand_each = length-set r.cells i (g c) ∙ s.one_sand_each;
              one_state_each = s.one_state_each;
              states_consistent = s.states_consistent;
            })
    ]

    set_state-IsSound :
        (r : Ratings f instant_max) (i : ℕ) (c : Cell)
        → IsSound n r
        → (Quarantine.enabled r.quarantine ≡ true → IsConsistent r.quarantine c)
        → IsSound n (set_state f instant_max r i c)
    set_state-IsSound r i c s v = record {
      threshold_u32 = s.threshold_u32;
      one_sand_each = s.one_sand_each;
      one_state_each = length-set r.states i c ∙ s.one_state_each;
      states_consistent =
          λ on. All-set (IsConsistent r.quarantine) r.states i c (s.states_consistent on) (v on);
    }

    -- The state at an index, after one call on it.
    pub after-state :
        (r : Ratings f instant_max) (i : ℕ) (c : Cell) (call : ℕ × Call)
        → IsSound n r
        → get_elem? r.states i ≡ some c
        → IsSound n (set_state f instant_max r i (after instant_max r.quarantine c call))
    after-state r i c call s here = set_state-IsSound r i _ s (λ on.
        after-IsConsistent instant_max r.quarantine s.threshold_u32 c call (ltb→lt _ _ on)
          (All-get_elem? (IsConsistent r.quarantine) r.states i (s.states_consistent on) here))

    pub on_failure-IsSound :
        (r : Ratings f instant_max) (i now : ℕ)
        → IsSound n r
        → IsSound n (on_failure f instant_max r i now)
    unfolding on_failure
    on_failure-IsSound r i now s = elim (Bool-cases (Policy.enabled f r.policy)) [
      | inl on ↦ rw on (update_sand-IsSound r i _ s)
      | inr off ↦ rw off s
    ]

    fail_state-Keeps :
        (r : Ratings f instant_max) (i now : ℕ)
        → IsSound n r
        → i < n
        → Keeps n (ratings_of (fail_state f instant_max r i now))
    unfolding fail_state
    fail_state-Keeps r i now s h =
        let (c, here) = get_elem?-total r.states i (rw s.one_state_each h) in
        rw (here, fail_state) (after-state r i c (now, fails) s here)

    pub on_hard_failure_at-Keeps :
        (r : Ratings f instant_max) (i now : ℕ)
        → IsSound n r
        → Keeps n (ratings_of (on_hard_failure_at f instant_max r i now))
    unfolding on_hard_failure_at
    on_hard_failure_at-Keeps r i now s = elim (Bool-cases (leb (length r.cells) i)) [
      | inl out ↦ rw out s
      | inr inside ↦ rw inside (elim (Bool-cases (Quarantine.enabled r.quarantine)) [
        | inr off ↦ rw off (on_failure-IsSound r i now s)
        | inl on ↦
            let i_lt : i < n = rw (← s.one_sand_each) (ground arith) in
            rw on (
              fail_state-Keeps (on_failure f instant_max r i now) i now
                (on_failure-IsSound r i now s) i_lt)
      ])
    ]

    pub quarantine_now-IsSound :
        (r : Ratings f instant_max) (i now : ℕ)
        → IsSound n r
        → IsSound n (quarantine_now f instant_max r i now).0
    unfolding quarantine_now
    quarantine_now-IsSound r i now s = elim (Bool-cases (Quarantine.enabled r.quarantine)) [
      | inr off ↦ rw off s
      | inl on ↦ elim (Option-cases (get_elem? r.states i)) [
        | inl absent ↦ rw (on, absent, quarantine_now) s
        | inr (c, here) ↦ rw (on, here, quarantine_now) (after-state r i c (now, trips_now) s here)
      ]
    ]

    clear_state-Keeps :
        (r : Ratings f instant_max) (i : ℕ)
        → IsSound n r
        → i < n
        → Keeps n (clear_state f instant_max r i)
    unfolding clear_state
    clear_state-Keeps r i s h =
        let (c, here) = get_elem?-total r.states i (rw s.one_state_each h) in
        rw (here, clear_state) (after-state r i c (0, succeeds) s here)

    pub on_success-Keeps :
        (r : Ratings f instant_max) (i now : ℕ)
        → IsSound n r
        → Keeps n (on_success f instant_max r i now)
    unfolding on_success
    on_success-Keeps r i now s = elim (Bool-cases (leb (length r.cells) i)) [
      | inl out ↦ rw out s
      | inr inside ↦
          let i_lt : i < n = rw (← s.one_sand_each) (ground arith) in
          rw inside (elim (Bool-cases (Policy.enabled f r.policy)) [
            | inr off ↦ rw off (clear_state-Keeps r i s i_lt)
            | inl on ↦ rw on (clear_state-Keeps _ i (update_sand-IsSound r i _ s) i_lt)
          ])
    ]
