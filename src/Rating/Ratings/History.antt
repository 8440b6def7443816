-- ===== src/Rating/Ratings/History.antt =====
-- mod.rs and health.rs: every sequence of operations on a new `Ratings`.
use resocks.Base.{
  ℕ, zero, suc, ◌≤◌, ◌<◌, ◌≡◌, refl, sym, subst, ap, ◌∙◌, inl, inr, false, not, ◌&&◌, ◌||◌, Option,
  none, some, List, [], ◌∷◌, map, length, length-map, get_elem?, All, Bool-cases, Option-cases,
  arith, ltb→lt, ◌==◌,
}
use resocks.Base.Words.{u32_max}
use resocks.Rating.Float.{Float}
use resocks.Rating.Policy.{RatingPolicy}
use resocks.Rating.Quarantine.History.{IsConsistent, restores}
use resocks.Rating.Quarantine.{Cell, QuarantinePolicy, default_cell}
use resocks.Rating.Quarantine
use resocks.Rating.Ratings.Eligible.{pick_order_at-perm}
use resocks.Rating.Ratings.Invariant.{
  IsSound, Keeps, ratings_of, after-state, on_failure-IsSound, on_hard_failure_at-Keeps,
  quarantine_now-IsSound, on_success-Keeps,
}
use resocks.Rating.Ratings.Probes.{length-probes_from, probes_from-All}
use resocks.Rating.Sand.{weight}
use resocks.Rating.Sand
use resocks.Rating.Ratings.{
  Ratings, Health, try_with_quarantine, on_failure, on_hard_failure_at, quarantine_now, on_success,
  pick_at, pick_order_at, take_probes_at, restore_health_at, any_healthy, repeat, is_backing_off,
  is_alive, pick_weights, weights, mask,
}

pub data Operation : Type 0 where
  failure hard_failure quarantine success : ℕ → Operation
  pick order probes : Operation
  restore : ℕ → Health → Operation

module _ (f : Float) (instant_max : ℕ) where
  -- The ratings after one operation at an instant; `none` is a panic.
  abbrev pub after : Ratings f instant_max → ℕ × Operation → Option (Ratings f instant_max)
  after r (now, failure i) = some (on_failure f instant_max r i now)
  after r (now, hard_failure i) =
      ratings_of f instant_max (on_hard_failure_at f instant_max r i now)
  after r (now, quarantine i) = some (quarantine_now f instant_max r i now).0
  after r (now, success i) = on_success f instant_max r i now
  after r (now, pick) = ratings_of f instant_max (pick_at f instant_max r now)
  after r (now, order) = ratings_of f instant_max (pick_order_at f instant_max r now)
  after r (now, probes) = some (take_probes_at f instant_max r now).0
  after r (now, restore i h) = some (restore_health_at f instant_max r i h now).0

  abbrev pub run : Ratings f instant_max → List (ℕ × Operation) → Option (Ratings f instant_max)
  run r [] = some r
  run r (op ∷ ops) = elim (after r op) [ none ↦ none | some r' ↦ run r' ops ]

  module _ (n : ℕ) where
    length-mask :
        (now : ℕ) (ws : List f.F) (cs : List Cell)
        → length (mask f instant_max now ws cs) ≡ length ws
    length-mask now [] cs = refl
    length-mask now (w ∷ ws) [] = refl
    length-mask now (w ∷ ws) (c ∷ cs) = ap suc (length-mask now ws cs)

    length-pick_weights :
        (r : Ratings f instant_max) (now : ℕ)
        → length (pick_weights f instant_max r now) ≡ length r.cells
    unfolding pick_weights weights
    length-pick_weights r now =
        let plain = length-map (λ c. weight f c now r.policy) r.cells in
        elim (Bool-cases
          (Quarantine.enabled r.quarantine && any_healthy f instant_max now r.states)) [
            | inl masked ↦
                rw masked
                  (length-mask now (map (λ c. weight f c now r.policy) r.cells) r.states ∙ plain)
            | inr unmasked ↦ rw unmasked plain
          ]

    pick_at-Keeps :
        (r : Ratings f instant_max) (now : ℕ)
        → 0 < n
        → IsSound f instant_max n r
        → Keeps f instant_max n (ratings_of f instant_max (pick_at f instant_max r now))
    unfolding pick_at
    pick_at-Keeps r now h s =
        let ne : (length (pick_weights f instant_max r now) == 0) ≡ false =
          ground (arith, length-pick_weights r now, s.one_sand_each) in
        rw ne (record {
          threshold_u32 = s.threshold_u32;
          one_sand_each = s.one_sand_each;
          one_state_each = s.one_state_each;
          states_consistent = s.states_consistent;
        })

    pick_order_at-Keeps :
        (r : Ratings f instant_max) (now : ℕ)
        → IsSound f instant_max n r
        → Keeps f instant_max n (ratings_of f instant_max (pick_order_at f instant_max r now))
    pick_order_at-Keeps r now s =
        let (rng, chosen, e, _) =
          pick_order_at-perm f instant_max r now (s.one_sand_each ∙ sym s.one_state_each) in
        rw e (record {
          threshold_u32 = s.threshold_u32;
          one_sand_each = s.one_sand_each;
          one_state_each = s.one_state_each;
          states_consistent = s.states_consistent;
        })

    take_probes_at-IsSound :
        (r : Ratings f instant_max) (now : ℕ)
        → IsSound f instant_max n r
        → IsSound f instant_max n (take_probes_at f instant_max r now).0
    unfolding take_probes_at
    take_probes_at-IsSound r now s = elim (Bool-cases (Quarantine.enabled r.quarantine)) [
      | inr off ↦ rw off s
      | inl on ↦ rw on (record {
        threshold_u32 = s.threshold_u32;
        one_sand_each = s.one_sand_each;
        one_state_each =
            length-probes_from f instant_max r.quarantine now 0 r.states ∙ s.one_state_each;
        states_consistent = λ _.
            probes_from-All f instant_max r.quarantine now 0 r.states s.threshold_u32
              (ltb→lt _ _ on) (s.states_consistent on);
      })
    ]

    restore_health_at-IsSound :
        (r : Ratings f instant_max) (i : ℕ) (h : Health) (now : ℕ)
        → IsSound f instant_max n r
        → IsSound f instant_max n (restore_health_at f instant_max r i h now).0
    unfolding restore_health_at
    restore_health_at-IsSound r i h now s =
        elim (Bool-cases (not (Quarantine.enabled r.quarantine) || is_alive h.state)) [
          | inl skip ↦ rw skip s
          | inr go ↦ elim (Option-cases (get_elem? r.states i)) [
            | inl absent ↦ rw (go, absent, restore_health_at) s
            | inr (c, here) ↦
                rw (go, here, restore_health_at)
                  (after-state f instant_max n r i c
                    (now, restores (is_backing_off h.state) h.remaining h.trips h.consecutive) s
                    here)
          ]
        ]

    pub after-Keeps :
        (r : Ratings f instant_max) (op : ℕ × Operation)
        → 0 < n
        → IsSound f instant_max n r
        → Keeps f instant_max n (after r op)
    after-Keeps r (now, failure i) h s = on_failure-IsSound f instant_max n r i now s
    after-Keeps r (now, hard_failure i) h s = on_hard_failure_at-Keeps f instant_max n r i now s
    after-Keeps r (now, quarantine i) h s = quarantine_now-IsSound f instant_max n r i now s
    after-Keeps r (now, success i) h s = on_success-Keeps f instant_max n r i now s
    after-Keeps r (now, pick) h s = pick_at-Keeps r now h s
    after-Keeps r (now, order) h s = pick_order_at-Keeps r now s
    after-Keeps r (now, probes) h s = take_probes_at-IsSound r now s
    after-Keeps r (now, restore i health) h s = restore_health_at-IsSound r i health now s

    run-Keeps :
        (ops : List (ℕ × Operation)) (r : Ratings f instant_max)
        → 0 < n
        → IsSound f instant_max n r
        → Keeps f instant_max n (run r ops)
    run-Keeps [] r h s = s
    run-Keeps (op ∷ ops) r h s = elim (Option-cases (after r op)) [
      | inl panics ↦ absurd (rw panics at (after-Keeps r op h s))
      | inr (r', e) ↦ rw (e, run) (run-Keeps ops r' h (rw e at (after-Keeps r op h s)))
    ]

    length-repeat : {A : Type 0} (a : A) (m : ℕ) → length (repeat f instant_max m a) ≡ m
    length-repeat a zero = refl
    length-repeat a (suc m) = ap suc (length-repeat a m)

    All-repeat :
        (p : QuarantinePolicy) (m : ℕ)
        → 0 < p.threshold
        → All (IsConsistent p) (repeat f instant_max m default_cell)
    All-repeat p zero h = tt
    All-repeat p (suc m) h = ((refl, refl, h), All-repeat p m h)

    abbrev fresh : RatingPolicy f → QuarantinePolicy → ℕ → ℕ → Ratings f instant_max
    fresh policy p now seed = record {
      policy = policy;
      quarantine = p;
      cells = repeat f instant_max n (Sand.new f now);
      states = repeat f instant_max n default_cell;
      rng = seed;
    }

    fresh-IsSound :
        (policy : RatingPolicy f) (p : QuarantinePolicy) (now seed : ℕ)
        → p.threshold ≤ u32_max
        → IsSound f instant_max n (fresh policy p now seed)
    fresh-IsSound policy p now seed t = record {
      threshold_u32 = t;
      one_sand_each = length-repeat (Sand.new f now) n;
      one_state_each = length-repeat default_cell n;
      states_consistent = λ on. All-repeat p n (ltb→lt _ _ on);
    }

    pub try_with_quarantine-IsSound :
        (policy : RatingPolicy f) (p : QuarantinePolicy) (now seed : ℕ) (r : Ratings f instant_max)
        → p.threshold ≤ u32_max
        → try_with_quarantine f instant_max n policy p now seed ≡ some r
        → IsSound f instant_max n r
    unfolding try_with_quarantine
    try_with_quarantine-IsSound policy p now seed r t e =
        let same : fresh policy p now seed ≡ r = ground arith in
        subst (IsSound f instant_max n) same (fresh-IsSound policy p now seed t)

    -- Ratings built for at least one upstream never panic, whatever operations run on them, at any
    -- instants and with any indices: afterwards each upstream still has one sand and one
    -- quarantine cell, and with the quarantine on every cell is consistent. The threshold is a `u32`.
    pub run-IsSound :
        (policy : RatingPolicy f) (p : QuarantinePolicy) (now seed : ℕ) (r : Ratings f instant_max)
        (ops : List (ℕ × Operation))
        → 0 < n
        → p.threshold ≤ u32_max
        → try_with_quarantine f instant_max n policy p now seed ≡ some r
        → Keeps f instant_max n (run r ops)
    run-IsSound policy p now seed r ops h t e =
        run-Keeps ops r h (try_with_quarantine-IsSound policy p now seed r t e)
