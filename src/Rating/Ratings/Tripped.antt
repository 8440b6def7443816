-- ===== src/Rating/Ratings/Tripped.antt =====
-- mod.rs, `quarantine_now` and `on_failure`: which of them marks an upstream as quarantined.
use resocks.Base.{
  ℕ, ◌≡◌, refl, true, inl, inr, Option-cases, Bool-cases, some, get_elem?, get_elem?-set,
}
use resocks.Rating.Float.{Float}
use resocks.Rating.Policy
use resocks.Rating.Quarantine.Tripped.{is_tripped-trip_now}
use resocks.Rating.Quarantine.{Cell, trip_now}
use resocks.Rating.Quarantine
use resocks.Rating.Ratings.{Ratings, quarantine_now, is_quarantined, on_failure, update_sand}

module _ (f : Float) (instant_max : ℕ) where
  pub is_quarantined-quarantine_now :
      (r : Ratings f instant_max) (i now : ℕ) (c : Cell)
      → Quarantine.enabled r.quarantine ≡ true
      → get_elem? r.states i ≡ some c
      → is_quarantined f instant_max (quarantine_now f instant_max r i now).0 i ≡ true
  unfolding is_quarantined quarantine_now
  is_quarantined-quarantine_now r i now c on here =
      let c' = (trip_now instant_max c now r.quarantine).0 in
      let there = get_elem?-set r.states i c' c here in
      rw (on, here, quarantine_now)
        (rw (there, is_quarantined) (is_tripped-trip_now instant_max c now r.quarantine))

  pub on_failure_states :
      (r : Ratings f instant_max) (i now : ℕ) → (on_failure f instant_max r i now).states ≡ r.states
  unfolding on_failure
  on_failure_states r i now = elim (Bool-cases (Policy.enabled f r.policy)) [
    | inr off ↦ rw off refl
    | inl on ↦ elim (Option-cases (get_elem? r.cells i)) [
      | inl absent ↦ rw (on, absent, update_sand) refl
      | inr (c, here) ↦ rw (on, here, update_sand) refl
    ]
  ]
