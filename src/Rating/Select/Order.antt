-- ===== src/Rating/Select/Order.antt =====
-- select.rs, `order_keys` and `weighted_order`: every index stands in the order once.
use mathlib.Core.List.{Perm}
use mathlib.Core.List.Perm
use resocks.Base.{
  ℕ, suc, ◌≡◌, refl, ap, inl, inr, List, [], ◌∷◌, map, length, range_from, Bool-cases, subst,
}
use resocks.Rating.Float.{Float}
use resocks.Rating.Rng.{next_f64}
use resocks.Rating.Select.{
  key_before, insert_key, sort_keys, order_keys, keys_from, weighted_keys, weighted_order,
}

module _ (f : Float) where
  open f use {F}

  insert_key-perm : (x : ℕ × F) (ys : List (ℕ × F)) → Perm (insert_key f x ys) (x ∷ ys)
  unfolding insert_key
  insert_key-perm x [] = Perm.refl _
  insert_key-perm x (y ∷ ys) = elim (Bool-cases (key_before f x y)) [
    | inl first ↦ rw first (Perm.refl _)
    | inr later ↦ rw later (Perm.trans (Perm.cons y (insert_key-perm x ys)) (Perm.swap x y ys))
  ]

  sort_keys-perm : (xs : List (ℕ × F)) → Perm (sort_keys f xs) xs
  unfolding sort_keys
  sort_keys-perm [] = Perm.refl _
  sort_keys-perm (x ∷ xs) =
      Perm.trans (insert_key-perm x (sort_keys f xs)) (Perm.cons x (sort_keys-perm xs))

  keys_from-indices :
      (i : ℕ) (ws : List F) (rng : ℕ)
      → map (λ (key : ℕ × F). key.0) (keys_from f i ws rng).1 ≡ range_from i (length ws)
  unfolding keys_from
  keys_from-indices i [] rng = refl
  keys_from-indices i (w ∷ ws) rng = ap (◌∷◌ i) (keys_from-indices (suc i) ws (next_f64 f rng).0)

  pub order_keys-perm :
      (ws : List F) (rng : ℕ)
      → Perm (order_keys f (weighted_keys f ws rng).1) (range_from 0 (length ws))
  unfolding weighted_keys order_keys
  order_keys-perm ws rng =
      subst (Perm _) (keys_from-indices 0 ws rng) (Perm.map _ (sort_keys-perm _))

  -- The order drawn holds each index of the weights exactly once, for every generator state.
  pub weighted_order-perm :
      (ws : List F) (rng : ℕ) → Perm (weighted_order f ws rng) (range_from 0 (length ws))
  unfolding weighted_order
  weighted_order-perm = order_keys-perm
