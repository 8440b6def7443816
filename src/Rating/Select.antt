-- ===== src/Rating/Select.antt =====
-- crates/resocks5-net/src/session/rating/select.rs: one index, or an order, drawn by weight.
use Prim.Native.Nat.{Ordering}
use resocks.Base.{
  ℕ, suc, ◌+◌, Bool, true, false, Option, none, some, List, [], ◌∷◌, map, ltb, if◌then◌else◌,
}
use resocks.Rating.Float.{Float, f_zero, selectable}
use resocks.Rating.Rng.{next_f64}
pub mod Order
pub mod Index

module _ (f : Float) where
  open f use {F, add, sub, mul, div, neg, ln, fmax, le, infinity, total_cmp}

  -- The first fold of `weighted_index`, from a maximum so far.
  max_weight : F → List F → F
  max_weight m [] = m
  max_weight m (w ∷ ws) = max_weight (if selectable f w then fmax m w else m) ws

  -- `.filter(..).map(|w| w / max).sum()`, from a sum so far.
  total_weight : F → F → List F → F
  total_weight top sum [] = sum
  total_weight top sum (w ∷ ws) =
      total_weight top (if selectable f w then add sum (div w top) else sum) ws

  -- The loop with the dart: the index where it lands, if it lands.
  throw : F → F → ℕ → List F → Option ℕ
  throw top dart i [] = none
  throw top dart i (w ∷ ws) =
      let dart' = sub dart (div w top) in
      let passed = throw top dart (suc i) ws in
      let missed = throw top dart' (suc i) ws in
      if selectable f w then if le dart' (f_zero f) then some i else missed else passed

  -- `rposition(..)`: the last selectable index, from the one found so far.
  last_selectable : ℕ → Option ℕ → List F → Option ℕ
  last_selectable i found [] = found
  last_selectable i found (w ∷ ws) =
      last_selectable (suc i) (if selectable f w then some i else found) ws

  abbrev index_or_zero : Option ℕ → ℕ
  index_or_zero none = 0
  index_or_zero (some i) = i

  abbrev or_index : Option ℕ → Option ℕ → Option ℕ
  or_index none other = other
  or_index (some i) other = some i

  -- The new state of the generator and the index drawn.
  pub weighted_index : List F → ℕ → ℕ × ℕ
  weighted_index weights rng =
      let top = max_weight (f_zero f) weights in
      let (rng', drawn) = next_f64 f rng in
      let dart = mul drawn (total_weight top (f_zero f) weights) in
      if le top (f_zero f) then (rng, 0) else (
        rng',
        index_or_zero (or_index (throw top dart 0 weights) (last_selectable 0 none weights)),
      )

  key_of : F → F → F
  key_of u w = if selectable f w then sub (ln (neg (ln u))) (ln w) else infinity

  -- One draw for each weight, in order, from the index `i` on.
  keys_from : ℕ → List F → ℕ → ℕ × List (ℕ × F)
  keys_from i [] rng = (rng, [])
  keys_from i (w ∷ ws) rng =
      let (rng₁, u) = next_f64 f rng in
      let (rng₂, rest) = keys_from (suc i) ws rng₁ in (rng₂, (i, key_of u w) ∷ rest)

  pub weighted_keys : List F → ℕ → ℕ × List (ℕ × F)
  unfolding keys_from
  weighted_keys weights rng = keys_from 0 weights rng

  -- `a.1.total_cmp(&b.1).then(a.0.cmp(&b.0))` is less.
  key_before : ℕ × F → ℕ × F → Bool
  key_before (i, a) (j, b) = elim (total_cmp a b) [
    | Ordering.lt ↦ true
    | Ordering.eq ↦ ltb i j
    | Ordering.gt ↦ false
  ]

  insert_key : ℕ × F → List (ℕ × F) → List (ℕ × F)
  insert_key x [] = x ∷ []
  insert_key x (y ∷ ys) = if key_before x y then x ∷ y ∷ ys else y ∷ insert_key x ys

  -- The library's sort by a total order, whose result does not depend on the algorithm.
  sort_keys : List (ℕ × F) → List (ℕ × F)
  unfolding insert_key
  sort_keys [] = []
  sort_keys (x ∷ xs) = insert_key x (sort_keys xs)

  pub order_keys : List (ℕ × F) → List ℕ
  unfolding sort_keys
  order_keys keyed = map (λ key. key.0) (sort_keys keyed)

  pub weighted_order : List F → ℕ → List ℕ
  unfolding weighted_keys order_keys
  weighted_order weights rng = order_keys (weighted_keys weights rng).1
