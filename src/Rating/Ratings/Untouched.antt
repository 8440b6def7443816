-- ===== src/Rating/Ratings/Untouched.antt =====
-- mod.rs and health.rs: the operations that leave an upstream's quarantine cell as it is.
use resocks.Base.{
  ℕ, ◌≡◌, ◌≢◌, refl, ap, sym, ◌∙◌, inl, inr, not, ◌||◌, Option, none, some, List, length, get_elem?,
  get_elem?-set_other, Bool-cases, Option-cases, arith, leb, ◌==◌,
}
use resocks.Rating.Float.{Float}
use resocks.Rating.Policy
use resocks.Rating.Quarantine.{Cell, QuarantinePolicy, try_lease, lease_held}
use resocks.Rating.Quarantine
use resocks.Rating.Ratings.History.{
  Operation, failure, hard_failure, quarantine, success, pick, order, probes, restore, after,
}
use resocks.Rating.Ratings.Invariant.{ratings_of}
use resocks.Rating.Sand.{Sand}
use resocks.Rating.Ratings.{
  Ratings, Health, on_failure, on_hard_failure_at, quarantine_now, on_success, pick_at,
  pick_order_at, restore_health_at, fail_state, clear_state, set_state, update_sand, is_alive,
  pick_weights, weights_at, eligible, with_rng,
}

-- The operation reports no outcome that would move this upstream's quarantine cell: a soft failure
-- moves its sand only, and a call for probes finds the lease.
abbrev pub Spares : ℕ → ℕ × Operation → Type 0
Spares j (now, hard_failure i) = i ≢ j
Spares j (now, quarantine i) = i ≢ j
Spares j (now, success i) = i ≢ j
Spares j (now, restore i h) = i ≢ j
Spares j (now, failure i) = Unit {0}
Spares j (now, pick) = Unit {0}
Spares j (now, order) = Unit {0}
Spares j (now, probes) = Unit {0}

module _ (f : Float) (instant_max : ℕ) where
  -- The upstream's cell is what it was, or the operation panicked.
  abbrev pub Same : ℕ → Ratings f instant_max → Option (Ratings f instant_max) → Type 0
  Same j r none = Unit {0}
  Same j r (some r') = get_elem? r'.states j ≡ get_elem? r.states j

  on_failure-states :
      (r : Ratings f instant_max) (i now : ℕ) → (on_failure f instant_max r i now).states ≡ r.states
  unfolding on_failure
  on_failure-states r i now = ground arith

  set_state-other :
      (r : Ratings f instant_max) (i j : ℕ) (c : Cell)
      → i ≢ j
      → get_elem? (set_state f instant_max r i c).states j ≡ get_elem? r.states j
  set_state-other r i j c other = get_elem?-set_other r.states i j c (λ e. other (sym e))

  fail_state-Same :
      (r : Ratings f instant_max) (i now j : ℕ)
      → i ≢ j
      → Same j r (ratings_of f instant_max (fail_state f instant_max r i now))
  unfolding fail_state
  fail_state-Same r i now j other = elim (Option-cases (get_elem? r.states i)) [
    | inl absent ↦ rw (absent, fail_state) tt
    | inr (c, here) ↦ rw (here, fail_state) (set_state-other r i j _ other)
  ]

  -- Where only the sands differ.
  Same-sand :
      (r s : Ratings f instant_max) (j : ℕ) (o : Option (Ratings f instant_max))
      → s.states ≡ r.states
      → Same j s o
      → Same j r o
  Same-sand r s j none e h = tt
  Same-sand r s j (some t) e h = h ∙ ap (λ cs. get_elem? cs j) e

  on_hard_failure_at-Same :
      (r : Ratings f instant_max) (i now j : ℕ)
      → i ≢ j
      → Same j r (ratings_of f instant_max (on_hard_failure_at f instant_max r i now))
  unfolding on_hard_failure_at
  on_hard_failure_at-Same r i now j other =
      let soft = on_failure-states r i now in
      elim (Bool-cases (leb (length r.cells) i)) [
        | inl out ↦ rw out refl
        | inr inside ↦ rw inside (elim (Bool-cases (Quarantine.enabled r.quarantine)) [
          | inr off ↦ rw off (ap (λ cs. get_elem? cs j) soft)
          | inl on ↦ rw on (
              Same-sand r (on_failure f instant_max r i now) j _ soft
                (fail_state-Same (on_failure f instant_max r i now) i now j other))
        ])
      ]

  quarantine_now-Same :
      (r : Ratings f instant_max) (i now j : ℕ)
      → i ≢ j
      → get_elem? (quarantine_now f instant_max r i now).0.states j ≡ get_elem? r.states j
  unfolding quarantine_now
  quarantine_now-Same r i now j other = elim (Bool-cases (Quarantine.enabled r.quarantine)) [
    | inr off ↦ rw off refl
    | inl on ↦ elim (Option-cases (get_elem? r.states i)) [
      | inl absent ↦ rw (on, absent, quarantine_now) refl
      | inr (c, here) ↦ rw (on, here, quarantine_now) (set_state-other r i j _ other)
    ]
  ]

  clear_state-Same :
      (r : Ratings f instant_max) (i j : ℕ) → i ≢ j → Same j r (clear_state f instant_max r i)
  unfolding clear_state
  clear_state-Same r i j other = elim (Option-cases (get_elem? r.states i)) [
    | inl absent ↦ rw (absent, clear_state) tt
    | inr (c, here) ↦ rw (here, clear_state) (set_state-other r i j _ other)
  ]

  update_sand-states :
      (r : Ratings f instant_max) (i : ℕ) (g : Sand f → Sand f)
      → (update_sand f instant_max r i g).states ≡ r.states
  update_sand-states r i g = ground arith

  on_success-Same :
      (r : Ratings f instant_max) (i now j : ℕ)
      → i ≢ j
      → Same j r (on_success f instant_max r i now)
  unfolding on_success
  on_success-Same r i now j other = elim (Bool-cases (leb (length r.cells) i)) [
    | inl out ↦ rw out refl
    | inr inside ↦ rw inside (elim (Bool-cases (Policy.enabled f r.policy)) [
      | inl on ↦ rw on (
          Same-sand r (update_sand f instant_max r i _) j _ (update_sand-states r i _)
            (clear_state-Same (update_sand f instant_max r i _) i j other))
      | inr off ↦ rw off (clear_state-Same r i j other)
    ])
  ]

  restore_health_at-Same :
      (r : Ratings f instant_max) (i : ℕ) (h : Health) (now j : ℕ)
      → i ≢ j
      → get_elem? (restore_health_at f instant_max r i h now).0.states j ≡ get_elem? r.states j
  unfolding restore_health_at
  restore_health_at-Same r i h now j other =
      elim (Bool-cases (not (Quarantine.enabled r.quarantine) || is_alive h.state)) [
        | inl skip ↦ rw skip refl
        | inr go ↦ elim (Option-cases (get_elem? r.states i)) [
          | inl absent ↦ rw (go, absent, restore_health_at) refl
          | inr (c, here) ↦ rw (go, here, restore_health_at) (set_state-other r i j _ other)
        ]
      ]

  pick_at-Same :
      (r : Ratings f instant_max) (now j : ℕ)
      → Same j r (ratings_of f instant_max (pick_at f instant_max r now))
  unfolding pick_at
  pick_at-Same r now j = elim (Bool-cases (length (pick_weights f instant_max r now) == 0)) [
    | inl empty ↦ rw empty tt
    | inr drawn ↦ rw drawn refl
  ]

  with_rng-Same :
      (r : Ratings f instant_max) (rng j : ℕ) (o : Option (List ℕ))
      → Same j r (ratings_of f instant_max (with_rng f instant_max r rng o))
  with_rng-Same r rng j none = tt
  with_rng-Same r rng j (some chosen) = refl

  pick_order_at-Same :
      (r : Ratings f instant_max) (now j : ℕ)
      → Same j r (ratings_of f instant_max (pick_order_at f instant_max r now))
  unfolding pick_order_at
  pick_order_at-Same r now j =
      elim (Option-cases (weights_at f instant_max r now (eligible f instant_max r now))) [
        | inl panics ↦ rw (panics, pick_order_at) tt
        | inr (ws, e) ↦ rw (e, pick_order_at) (with_rng-Same r _ j _)
      ]

  -- What spares the upstream and takes no probes leaves its cell as it is.
  pub after-Same :
      (r : Ratings f instant_max) (op : ℕ × Operation) (j : ℕ)
      → Spares j op
      → op.1 ≢ probes
      → Same j r (after f instant_max r op)
  after-Same r (now, failure i) j spares quiet =
      ap (λ cs. get_elem? cs j) (on_failure-states r i now)
  after-Same r (now, hard_failure i) j spares quiet = on_hard_failure_at-Same r i now j spares
  after-Same r (now, quarantine i) j spares quiet = quarantine_now-Same r i now j spares
  after-Same r (now, success i) j spares quiet = on_success-Same r i now j spares
  after-Same r (now, pick) j spares quiet = pick_at-Same r now j
  after-Same r (now, order) j spares quiet = pick_order_at-Same r now j
  after-Same r (now, probes) j spares quiet = absurd (quiet refl)
  after-Same r (now, restore i h) j spares quiet = restore_health_at-Same r i h now j spares
