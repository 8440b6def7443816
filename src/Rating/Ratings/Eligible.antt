-- ===== src/Rating/Ratings/Eligible.antt =====
-- mod.rs, `pick_order_at`: no index is out of range, and the order holds the eligible upstreams.
use mathlib.Core.List.{Mem, Perm, mem-cons, mem-cons_self, mem-cons_of_mem, not-mem-nil}
use mathlib.Core.List.Perm
use mathlib.Core.Logic.Or
use native.Mathlib.Bridge.{le_prop}
use resocks.Base.{
  ℕ, zero, suc, ◌+◌, ◌≤◌, ◌<◌, ◌≡◌, refl, ap, ◌∙◌, inl, inr, subst, ◌&&◌, some, List, [], ◌∷◌, map,
  length, range_from, get_elem?, get_elem?-total, Bool-cases, arith,
}
use resocks.Rating.Float.{Float}
use resocks.Rating.Quarantine.{Cell}
use resocks.Rating.Quarantine
use resocks.Rating.Ratings.{
  Ratings, is_healthy, any_healthy, healthy_from, eligible, weights_at, select_all, pick_order_at,
}
use resocks.Rating.Sand.{weight}
use resocks.Rating.Select.Order.{order_keys-perm}
use resocks.Rating.Select.{weighted_keys, order_keys}

-- Every index of the list is below the bound.
abbrev pub AllBelow : ℕ → List ℕ → Type 0
AllBelow n is = (j : ℕ) → Mem j is → j < n

pub AllBelow-cons : (n i : ℕ) (is : List ℕ) → i < n → AllBelow n is → AllBelow n (i ∷ is)
AllBelow-cons n i is h all j m = Or.elim le_prop (mem-cons.0 m) (λ e. rw e h) (all j)

range_from-AllBelow : (i n bound : ℕ) → i + n ≤ bound → AllBelow bound (range_from i n)
range_from-AllBelow i zero bound h = λ j m. absurd (not-mem-nil m)
range_from-AllBelow i (suc n) bound h =
    AllBelow-cons bound i (range_from (suc i) n) (omega arith)
      (range_from-AllBelow (suc i) n bound (omega arith))

-- A read that is in range; 0 stands for the others.
abbrev pub read : List ℕ → ℕ → ℕ
read [] j = 0
read (x ∷ xs) zero = x
read (x ∷ xs) (suc j) = read xs j

pub get_elem?-read : (xs : List ℕ) (j : ℕ) → j < length xs → get_elem? xs j ≡ some (read xs j)
get_elem?-read [] j h = elim h [ ]
get_elem?-read (x ∷ xs) zero h = refl
get_elem?-read (x ∷ xs) (suc j) h = get_elem?-read xs j (omega arith)

map-read_shift :
    (x : ℕ) (xs : List ℕ) (i n : ℕ)
    → map (read (x ∷ xs)) (range_from (suc i) n) ≡ map (read xs) (range_from i n)
map-read_shift x xs i zero = refl
map-read_shift x xs i (suc n) = ap (◌∷◌ (read xs i)) (map-read_shift x xs (suc i) n)

map-read_all : (xs : List ℕ) → map (read xs) (range_from 0 (length xs)) ≡ xs
map-read_all [] = refl
map-read_all (x ∷ xs) = ap (◌∷◌ x) (map-read_shift x xs 0 (length xs) ∙ map-read_all xs)

module _ (f : Float) (instant_max : ℕ) where
  select_all-read :
      (from js : List ℕ)
      → AllBelow (length from) js
      → select_all f instant_max from js ≡ some (map (read from) js)
  unfolding select_all
  select_all-read from [] h = refl
  select_all-read from (j ∷ js) h = ground (
    arith,
    get_elem?-read from j (h j mem-cons_self),
    select_all-read from js (λ k m. h k (mem-cons_of_mem j m)),
  )

  healthy_from-AllBelow :
      (now i : ℕ) (cs : List Cell) (bound : ℕ)
      → i + length cs ≤ bound
      → AllBelow bound (healthy_from f instant_max now i cs)
  unfolding healthy_from
  healthy_from-AllBelow now i [] bound h = λ j m. absurd (not-mem-nil m)
  healthy_from-AllBelow now i (c ∷ cs) bound h =
      let rest = healthy_from-AllBelow now (suc i) cs bound (omega arith) in
      elim (Bool-cases (is_healthy f instant_max now c)) [
        | inl here ↦ rw here (AllBelow-cons bound i _ (omega arith) rest)
        | inr absent ↦ rw absent rest
      ]

  abbrev Total : Ratings f instant_max → ℕ → List ℕ → Type 0
  Total r now is =
      (ws : List f.F) × (weights_at f instant_max r now is ≡ some ws) × (length ws ≡ length is)

  weights_at-Total :
      (r : Ratings f instant_max) (now : ℕ) (is : List ℕ)
      → AllBelow (length r.cells) is
      → Total r now is
  unfolding weights_at
  weights_at-Total r now [] h = ([], refl, refl)
  weights_at-Total r now (i ∷ is) h =
      let (c, here) = get_elem?-total r.cells i (h i mem-cons_self) in
      let (ws, later, same) = weights_at-Total r now is (λ k m. h k (mem-cons_of_mem i m)) in
      (weight f c now r.policy ∷ ws, ground (arith, here, later), ap suc same)

  -- Both vectors of `Inner` have one entry for each upstream.
  abbrev pub IsShaped : Ratings f instant_max → Type 0
  IsShaped r = length r.cells ≡ length r.states

  pub eligible-AllBelow :
      (r : Ratings f instant_max) (now : ℕ)
      → IsShaped r
      → AllBelow (length r.cells) (eligible f instant_max r now)
  unfolding eligible
  eligible-AllBelow r now s =
      elim (Bool-cases
        (Quarantine.enabled r.quarantine && any_healthy f instant_max now r.states)) [
          | inl some_healthy ↦
              rw some_healthy (healthy_from-AllBelow now 0 r.states (length r.cells) (omega arith))
          | inr all_eligible ↦ rw all_eligible (range_from-AllBelow 0 _ _ (omega arith))
        ]

  -- An order is always given, with no index out of range, and holds each eligible upstream once;
  -- nothing but the generator's state changes.
  pub pick_order_at-perm :
      (r : Ratings f instant_max) (now : ℕ)
      → IsShaped r
      → (rng : ℕ) × (order : List ℕ) × (pick_order_at f instant_max r now
          ≡ some (record r { rng = rng }, order))
        × Perm order (eligible f instant_max r now)
  unfolding pick_order_at
  pick_order_at-perm r now s =
      let all = eligible f instant_max r now in
      let (ws, total, same) = weights_at-Total r now all (eligible-AllBelow r now s) in
      let drawn : Perm (order_keys f (weighted_keys f ws r.rng).1) (range_from 0 (length all)) =
        rw (← same) (order_keys-perm f ws r.rng) in
      let below : AllBelow (length all) (order_keys f (weighted_keys f ws r.rng).1) = λ j m.
        range_from-AllBelow 0 (length all) (length all) (omega arith) j (Perm.subset drawn j m) in
      let chosen = select_all-read all (order_keys f (weighted_keys f ws r.rng).1) below in
      (
        (weighted_keys f ws r.rng).0,
        map (read all) (order_keys f (weighted_keys f ws r.rng).1),
        ground (arith, total, chosen),
        subst (Perm _) (map-read_all all) (Perm.map (read all) drawn),
      )
