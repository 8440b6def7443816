-- ===== src/Rating/Select/Index.antt =====
-- select.rs, `weighted_index`: the index drawn is a selectable one.
use resocks.Base.{
  ℕ, zero, suc, ◌+◌, ◌≡◌, ◌⊎◌, inl, inr, refl, Bool, true, false, Option, none, some, List, [], ◌∷◌,
  get_elem?, Bool-cases, arith, if◌then◌else◌,
}
use resocks.Rating.Float.{Float, FloatLaws, f_zero, selectable}
use resocks.Rating.Rng.{next_f64}
use resocks.Rating.Select.{
  max_weight, total_weight, throw, last_selectable, weighted_index, index_or_zero, or_index,
}

module _ (f : Float) where
  open f use {F, le, fmax, sub, div}

  abbrev selectable_option : Option F → Bool
  selectable_option none = false
  selectable_option (some w) = selectable f w

  -- The weight at this index may be drawn.
  abbrev pub selects : List F → ℕ → Bool
  selects ws i = selectable_option (get_elem? ws i)

  -- An index counted from `i` points into the list at a selectable weight.
  abbrev PointsAt : List F → ℕ → ℕ → Type 0
  PointsAt ws i j = (n : ℕ) × (j ≡ i + n) × (selects ws n ≡ true)

  PointsAt-cons : (w : F) (ws : List F) (i j : ℕ) → PointsAt ws (suc i) j → PointsAt (w ∷ ws) i j
  PointsAt-cons w ws i j (n, e, s) = (suc n, omega arith, s)

  throw-PointsAt :
      (top dart : F) (i : ℕ) (ws : List F) (j : ℕ)
      → throw f top dart i ws ≡ some j
      → PointsAt ws i j
  unfolding throw
  throw-PointsAt top dart i [] j e = cc
  throw-PointsAt top dart i (w ∷ ws) j e = elim (Bool-cases (selectable f w)) [
    | inl yes_w ↦ elim (Bool-cases (le (sub dart (div w top)) (f_zero f))) [
      | inl lands ↦ (0, ground arith, yes_w)
      | inr misses ↦
          PointsAt-cons w ws i j
            (throw-PointsAt top (sub dart (div w top)) (suc i) ws j (ground arith))
    ]
    | inr no_w ↦ PointsAt-cons w ws i j (throw-PointsAt top dart (suc i) ws j (ground arith))
  ]

  last_selectable-PointsAt :
      (i : ℕ) (found : Option ℕ) (ws : List F) (j : ℕ)
      → last_selectable f i found ws ≡ some j
      → (found ≡ some j) ⊎ PointsAt ws i j
  unfolding last_selectable
  last_selectable-PointsAt i found [] j e = inl e
  last_selectable-PointsAt i found (w ∷ ws) j e = elim (last_selectable-PointsAt (suc i) _ ws j e) [
    | inr later ↦ inr (PointsAt-cons w ws i j later)
    | inl here ↦ elim (Bool-cases (selectable f w)) [
      | inl yes_w ↦ inr (0, ground arith, yes_w)
      | inr no_w ↦ inl (rw no_w at here)
    ]
  ]

  abbrev found_one : Option ℕ → Bool
  found_one none = false
  found_one (some _) = true

  last_selectable-found :
      (i : ℕ) (found : Option ℕ) (ws : List F)
      → found_one found ≡ true
      → found_one (last_selectable f i found ws) ≡ true
  unfolding last_selectable
  last_selectable-found i found [] h = h
  last_selectable-found i found (w ∷ ws) h =
      last_selectable-found (suc i) (if selectable f w then some i else found) ws (ground arith)

  last_selectable-finds :
      (i : ℕ) (found : Option ℕ) (ws : List F) (n : ℕ)
      → selects ws n ≡ true
      → found_one (last_selectable f i found ws) ≡ true
  unfolding last_selectable
  last_selectable-finds i found [] n h = cc
  last_selectable-finds i found (w ∷ ws) zero h =
      rw h (last_selectable-found (suc i) (some i) ws refl)
  last_selectable-finds i found (w ∷ ws) (suc n) h =
      last_selectable-finds (suc i) (if selectable f w then some i else found) ws n h

  PointsAt-selects : (ws : List F) (j : ℕ) → PointsAt ws 0 j → selects ws j ≡ true
  PointsAt-selects ws j (n, e, h) = let same : j ≡ n = omega arith in rw same h

  or_index-selects :
      (ws : List F) (hit fallback : Option ℕ)
      → ((j : ℕ) → hit ≡ some j → PointsAt ws 0 j)
      → ((j : ℕ) → fallback ≡ some j → PointsAt ws 0 j)
      → found_one fallback ≡ true
      → selects ws (index_or_zero f (or_index f hit fallback)) ≡ true
  or_index-selects ws (some j) fallback h k e = PointsAt-selects ws j (h j refl)
  or_index-selects ws none (some j) h k e = PointsAt-selects ws j (k j refl)
  or_index-selects ws none none h k e = cc

  last_selectable-from_none :
      (ws : List F) (j : ℕ) → last_selectable f 0 none ws ≡ some j → PointsAt ws 0 j
  last_selectable-from_none ws j e = elim (last_selectable-PointsAt 0 none ws j e) [
    | inl absent ↦ cc
    | inr points ↦ points
  ]

  module _ (laws : FloatLaws f) where
    max_weight-keeps :
        (m : F) (ws : List F) → le m (f_zero f) ≡ false → le (max_weight f m ws) (f_zero f) ≡ false
    unfolding max_weight
    max_weight-keeps m [] h = h
    max_weight-keeps m (w ∷ ws) h =
        max_weight-keeps (if selectable f w then fmax m w else m) ws
          (ground (arith, laws.fmax-pos m w))

    max_weight-pos :
        (m : F) (ws : List F) (n : ℕ)
        → selects ws n ≡ true
        → le (max_weight f m ws) (f_zero f) ≡ false
    unfolding max_weight
    max_weight-pos m [] n h = cc
    max_weight-pos m (w ∷ ws) zero h =
        rw h (max_weight-keeps (fmax m w) ws (ground (arith, laws.fmax-pos m w)))
    max_weight-pos m (w ∷ ws) (suc n) h =
        max_weight-pos (if selectable f w then fmax m w else m) ws n h

    -- If some weight may be drawn, the index drawn is that of such a weight, for every generator
    -- state and whatever the rounding of the dart.
    pub weighted_index-selects :
        (ws : List F) (rng n : ℕ)
        → selects ws n ≡ true
        → selects ws (weighted_index f ws rng).1 ≡ true
    unfolding weighted_index
    weighted_index-selects ws rng n h =
        let top = max_weight f (f_zero f) ws in
        let dart = f.mul (next_f64 f rng).1 (total_weight f top (f_zero f) ws) in
        rw (max_weight-pos (f_zero f) ws n h) (
          or_index-selects ws (throw f top dart 0 ws) (last_selectable f 0 none ws)
            (throw-PointsAt top dart 0 ws) (last_selectable-from_none ws)
            (last_selectable-finds 0 none ws n h))
