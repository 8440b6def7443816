-- ===== src/Rating/Ratings/Healthy.antt =====
-- mod.rs, `pick_order_at` and `pick_at`: a quarantined upstream stays out while a healthy one is there.
use mathlib.Core.Option.{some-injective}
use resocks.Base.{
  get_elem?-below, ℕ, zero, suc, ◌+◌, ◌<◌, ◌≡◌, refl, inl, inr, Bool, true, false, not, ◌&&◌, ◌||◌,
  some, List, [], ◌∷◌, length, length-map, range_from, get_elem?, Bool-cases, arith, ◌==◌,
}
use resocks.Rating.Float.{Float, FloatLaws, f_zero, selectable}
use resocks.Rating.Quarantine.{Cell}
use resocks.Rating.Quarantine
use resocks.Rating.Ratings.Eligible.{IsShaped}
use resocks.Rating.Ratings.Probes.{holds}
use resocks.Rating.Ratings.{
  Ratings, is_healthy, any_healthy, healthy_from, eligible, mask, weights, pick_weights, pick_at,
}
use resocks.Rating.Sand.{weight}
use resocks.Rating.Select.Index.{selects, weighted_index-selects}
use resocks.Rating.Select.{weighted_index}

module _ (f : Float) (instant_max : ℕ) where
  healthy_from-below :
      (now i : ℕ) (cs : List Cell) (j : ℕ)
      → j < i
      → holds (healthy_from f instant_max now i cs) j ≡ false
  unfolding healthy_from
  healthy_from-below now i [] j h = refl
  healthy_from-below now i (c ∷ cs) j h =
      ground (arith, healthy_from-below now (suc i) cs j (omega arith))

  healthy_from-holds :
      (now i : ℕ) (cs : List Cell) (k : ℕ) (c : Cell)
      → get_elem? cs k ≡ some c
      → holds (healthy_from f instant_max now i cs) (i + k) ≡ is_healthy f instant_max now c
  unfolding healthy_from
  healthy_from-holds now i [] k c e = cc
  healthy_from-holds now i (d ∷ cs) zero c e =
      ground (arith, healthy_from-below now (suc i) cs (i + 0) (omega arith))
  healthy_from-holds now i (d ∷ cs) (suc k) c e =
      let later = healthy_from-holds now (suc i) cs k c e in
      let same : suc i + k ≡ i + suc k = omega arith in
      let other : (i == i + suc k) ≡ false = ground arith in
      elim (Bool-cases (is_healthy f instant_max now d)) [
        | inl here ↦ rw here (rw (other, ← same) later)
        | inr absent ↦ rw absent (rw (← same) later)
      ]

  range_from-holds : (i n k : ℕ) → k < n → holds (range_from i n) (i + k) ≡ true
  range_from-holds i zero k h = elim h [ ]
  range_from-holds i (suc n) zero h = ground arith
  range_from-holds i (suc n) (suc k) h =
      let same : suc i + k ≡ i + suc k = omega arith in
      let other : (i == i + suc k) ≡ false = ground arith in
      rw (other, ← same) (range_from-holds (suc i) n k (omega arith))

  or_false : (b : Bool) → (b || false) ≡ b
  or_false true = refl
  or_false false = refl

  or_true : (b : Bool) → (b || true) ≡ true
  or_true true = refl
  or_true false = refl

  -- An upstream is in the order exactly when it is healthy, or when the quarantine is off, or when
  -- no upstream is healthy.
  pub eligible-holds :
      (r : Ratings f instant_max) (now i : ℕ) (c : Cell)
      → IsShaped f instant_max r
      → get_elem? r.states i ≡ some c
      → holds (eligible f instant_max r now) i ≡ (
          is_healthy f instant_max now c
          || not (Quarantine.enabled r.quarantine && any_healthy f instant_max now r.states))
  unfolding eligible
  eligible-holds r now i c s e =
      let z : 0 + i ≡ i = omega arith in
      elim (Bool-cases
        (Quarantine.enabled r.quarantine && any_healthy f instant_max now r.states)) [
          | inl masked ↦
              rw (masked, or_false (is_healthy f instant_max now c))
                (rw z at (healthy_from-holds now 0 r.states i c e))
          | inr all_of_them ↦
              rw (all_of_them, or_true (is_healthy f instant_max now c))
                (rw z at (
                  range_from-holds 0 (length r.cells) i
                    (omega (arith, s, get_elem?-below r.states i c e))))
        ]

  and_false : (b : Bool) → (b && false) ≡ false
  and_false true = refl
  and_false false = refl

  module _ (laws : FloatLaws f) where
    mask-selects :
        (now : ℕ) (ws : List f.F) (cs : List Cell) (k : ℕ) (c : Cell)
        → get_elem? cs k ≡ some c
        → selects f (mask f instant_max now ws cs) k
          ≡ (is_healthy f instant_max now c && selects f ws k)
    mask-selects now [] cs k c e = rw (and_false (is_healthy f instant_max now c)) refl
    mask-selects now (w ∷ ws) [] k c e = cc
    mask-selects now (w ∷ ws) (d ∷ cs) zero c e =
        let same : d ≡ c = some-injective d c e in
        elim (Bool-cases (is_healthy f instant_max now d)) [
          | inl healthy_here ↦
              let also : is_healthy f instant_max now c ≡ true = rw same at healthy_here in
              rw (healthy_here, also) refl
          | inr quarantined_here ↦
              let also : is_healthy f instant_max now c ≡ false = rw same at quarantined_here in
              rw (quarantined_here, also, laws.zero-not-lt, and_false (f.is_finite (f_zero f))) refl
        ]
    mask-selects now (w ∷ ws) (d ∷ cs) (suc k) c e = mask-selects now ws cs k c e

    mask-picks :
        (now : ℕ) (ws : List f.F) (cs : List Cell) (k : ℕ)
        → length ws ≡ length cs
        → selects f (mask f instant_max now ws cs) k ≡ true
        → (d : Cell) × (get_elem? cs k ≡ some d) × (is_healthy f instant_max now d ≡ true)
    mask-picks now [] cs k same h = cc
    mask-picks now (w ∷ ws) [] k same h = ground arith
    mask-picks now (w ∷ ws) (d ∷ cs) zero same h =
        elim (Bool-cases (is_healthy f instant_max now d)) [
          | inl healthy_here ↦ (d, refl, healthy_here)
          | inr quarantined_here ↦
              let never : selectable f (f_zero f) ≡ false =
                rw (laws.zero-not-lt, and_false (f.is_finite (f_zero f))) refl in
              let drawn : selectable f (f_zero f) ≡ true = rw quarantined_here at h in cc
        ]
    mask-picks now (w ∷ ws) (d ∷ cs) (suc k) same h = mask-picks now ws cs k (omega (arith, same)) h

    any_healthy-holds :
        (now : ℕ) (cs : List Cell) (k : ℕ) (c : Cell)
        → get_elem? cs k ≡ some c
        → is_healthy f instant_max now c ≡ true
        → any_healthy f instant_max now cs ≡ true
    any_healthy-holds now [] k c e h = cc
    any_healthy-holds now (d ∷ cs) zero c e h =
        let same : d ≡ c = some-injective d c e in
        let also : is_healthy f instant_max now d ≡ true = rw same h in rw also refl
    any_healthy-holds now (d ∷ cs) (suc k) c e h =
        rw (any_healthy-holds now cs k c e h, or_true (is_healthy f instant_max now d)) refl

    length-mask :
        (now : ℕ) (ws : List f.F) (cs : List Cell)
        → length (mask f instant_max now ws cs) ≡ length ws
    length-mask now [] cs = refl
    length-mask now (w ∷ ws) [] = refl
    length-mask now (w ∷ ws) (c ∷ cs) = omega (arith, length-mask now ws cs)

    pick_weights-mask :
        (r : Ratings f instant_max) (now : ℕ)
        → Quarantine.enabled r.quarantine ≡ true
        → any_healthy f instant_max now r.states ≡ true
        → pick_weights f instant_max r now
          ≡ mask f instant_max now (weights f instant_max r now) r.states
    unfolding pick_weights
    pick_weights-mask r now on some_one = rw (on, some_one) refl

    length-weights :
        (r : Ratings f instant_max) (now : ℕ)
        → length (weights f instant_max r now) ≡ length r.cells
    unfolding weights
    length-weights r now = length-map (λ c. weight f c now r.policy) r.cells

    -- While the quarantine is on, if some healthy upstream has a weight that may be drawn, `pick`
    -- does not panic and gives a healthy upstream; only the generator changes.
    pub pick_at-healthy :
        (r : Ratings f instant_max) (now k : ℕ) (c : Cell)
        → IsShaped f instant_max r
        → Quarantine.enabled r.quarantine ≡ true
        → get_elem? r.states k ≡ some c
        → is_healthy f instant_max now c ≡ true
        → selects f (weights f instant_max r now) k ≡ true
        → (rng : ℕ) × (i : ℕ) × (d : Cell) × (pick_at f instant_max r now
            ≡ some (record r { rng = rng }, i))
          × (get_elem? r.states i ≡ some d)
          × (is_healthy f instant_max now d ≡ true)
    unfolding pick_at
    pick_at-healthy r now k c s on e h w =
        let ws = weights f instant_max r now in
        let drawn = weighted_index f (mask f instant_max now ws r.states) r.rng in
        let masked : pick_weights f instant_max r now ≡ mask f instant_max now ws r.states =
          pick_weights-mask r now on (any_healthy-holds now r.states k c e h) in
        let may_draw : selects f (mask f instant_max now ws r.states) k ≡ true =
          rw (mask-selects now ws r.states k c e, h) w in
        let same_length : length ws ≡ length r.states = omega (arith, s, length-weights r now) in
        let full : (length (mask f instant_max now ws r.states) == 0) ≡ false =
          ground (arith, length-mask now ws r.states, get_elem?-below r.states k c e) in
        let (d, here, fine) =
          mask-picks now ws r.states drawn.1 same_length
            (weighted_index-selects f laws (mask f instant_max now ws r.states) r.rng k may_draw) in
        (drawn.0, drawn.1, d, rw (masked, full) refl, here, fine)
