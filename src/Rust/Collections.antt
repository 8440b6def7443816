-- ===== src/Rust/Collections.antt =====
-- `std::collections`: `HashMap` with texts for keys and `BTreeSet`, each as the list of what it
-- holds. Only the contents show in the code's results, and `BTreeSet::first` reads the order.
use resocks.Base.{
  ℕ, ◌≤◌, ◌<◌, ◌≡◌, refl, inl, inr, Bool, true, false, not, ◌&&◌, ◌||◌, Option, none, some, List,
  [], ◌∷◌, length, arith, Bool-cases, if◌then◌else◌,
}
use resocks.Rust.Text.{Bytes, bytes_eq, bytes_eq_refl, bytes_eq_sound}

module _ {V : Type 0} where
  unfoldable pub lookup : Bytes → List (Bytes × V) → Option V
  lookup k [] = none
  lookup k ((j, v) ∷ m) = if bytes_eq k j then some v else lookup k m

  unfoldable pub remove_entry : Bytes → List (Bytes × V) → List (Bytes × V)
  remove_entry k [] = []
  remove_entry k ((j, v) ∷ m) = if bytes_eq k j then remove_entry k m else (j, v) ∷ remove_entry k m

  unfoldable pub insert_entry : Bytes → V → List (Bytes × V) → List (Bytes × V)
  unfolding remove_entry
  insert_entry k v m = (k, v) ∷ remove_entry k m

  pub lookup-remove_entry :
      (j k : Bytes) (m : List (Bytes × V))
      → lookup j (remove_entry k m) ≡ (if bytes_eq j k then none else lookup j m)
  unfolding lookup remove_entry
  lookup-remove_entry j k [] = ground arith
  lookup-remove_entry j k ((i, v) ∷ m) = ground (
    arith,
    bytes_eq_sound k i,
    bytes_eq_sound j k,
    bytes_eq_sound j i,
    bytes_eq_refl j,
    lookup-remove_entry j k m,
  )

  pub lookup-insert_entry :
      (j k : Bytes) (v : V) (m : List (Bytes × V))
      → lookup j (insert_entry k v m) ≡ (if bytes_eq j k then some v else lookup j m)
  unfolding lookup insert_entry
  lookup-insert_entry j k v m = ground (arith, lookup-remove_entry j k m)

  pub length-remove_entry :
      (k : Bytes) (m : List (Bytes × V)) → length (remove_entry k m) ≤ length m
  unfolding remove_entry
  length-remove_entry k [] = omega arith
  length-remove_entry k ((j, v) ∷ m) = ground (arith, length-remove_entry k m)

  pub length-remove_entry-some :
      (k : Bytes) (m : List (Bytes × V)) (v : V)
      → lookup k m ≡ some v
      → length (remove_entry k m) < length m
  unfolding lookup remove_entry
  length-remove_entry-some k [] v h = cc
  length-remove_entry-some k ((j, w) ∷ m) v h =
      ground (arith, length-remove_entry k m, length-remove_entry-some k m v)

  pub remove_entry-absent :
      (k : Bytes) (m : List (Bytes × V)) → lookup k m ≡ none → remove_entry k m ≡ m
  unfolding lookup remove_entry
  remove_entry-absent k [] h = refl
  remove_entry-absent k ((j, w) ∷ m) h = ground (arith, remove_entry-absent k m)

  pub lookup-of_empty : (k : Bytes) (m : List (Bytes × V)) → length m ≤ 0 → lookup k m ≡ none
  unfolding lookup
  lookup-of_empty k [] h = refl
  lookup-of_empty k ((j, v) ∷ m) h = absurd (omega arith)

  pub lookup-of_length :
      (m : List (Bytes × V)) → 0 < length m → (k : Bytes) × (v : V) × (lookup k m ≡ some v)
  unfolding lookup
  lookup-of_length [] h = elim h [ ]
  lookup-of_length ((j, v) ∷ m) h = (j, v, rw (bytes_eq_refl j) refl)

-- What `BTreeSet` reads of its items; `key` is what the order compares first.
pub record Ordered (T : Type 0) : Type 0 where
  pub beq : T → T → Bool
  pub lt : T → T → Bool
  pub key : T → ℕ
  pub beq_refl : (a : T) → beq a a ≡ true
  pub beq_sound : (a b : T) → beq a b ≡ true → a ≡ b
  pub lt-le : (a b : T) → lt a b ≡ true → key a ≤ key b
  pub not_lt-le : (a b : T) → lt a b ≡ false → key b ≤ key a

module _ {T : Type 0} (o : Ordered T) where
  unfoldable pub has : T → List T → Bool
  has t [] = false
  has t (x ∷ xs) = o.beq t x || has t xs

  unfoldable pub remove_item : T → List T → List T
  remove_item t [] = []
  remove_item t (x ∷ xs) = if o.beq x t then remove_item t xs else x ∷ remove_item t xs

  unfoldable pub insert_item : T → List T → List T
  unfolding has
  insert_item t xs = if has t xs then xs else t ∷ xs

  least : T → List T → T
  least m [] = m
  least m (x ∷ xs) = least (if o.lt x m then x else m) xs

  unfoldable pub first : List T → Option T
  unfolding least
  first [] = none
  first (x ∷ xs) = some (least x xs)

  pub has-remove_item :
      (u t : T) (xs : List T) → has u (remove_item t xs) ≡ (not (o.beq u t) && has u xs)
  unfolding has remove_item
  has-remove_item u t [] = ground arith
  has-remove_item u t (x ∷ xs) = ground (
    arith,
    o.beq_sound x t,
    o.beq_sound u x,
    o.beq_sound u t,
    o.beq_refl u,
    has-remove_item u t xs,
  )

  pub has-insert_item : (u t : T) (xs : List T) → has u (insert_item t xs) ≡ (o.beq u t || has u xs)
  unfolding has insert_item
  has-insert_item u t xs = ground (arith, o.beq_sound u t)

  least-key : (m : T) (xs : List T) → o.key (least m xs) ≤ o.key m
  unfolding least
  least-key m [] = omega arith
  least-key m (x ∷ xs) = elim (Bool-cases (o.lt x m)) [
    | inl less ↦ rw less (omega (arith, least-key x xs, o.lt-le x m less))
    | inr more ↦ rw more (least-key m xs)
  ]

  least-bound : (m : T) (xs : List T) (u : T) → has u (m ∷ xs) ≡ true → o.key (least m xs) ≤ o.key u
  unfolding has least
  least-bound m [] u h = ground (arith, o.beq_sound u m)
  least-bound m (x ∷ xs) u h =
      let from_m = least-key (if o.lt x m then x else m) xs in
      ground (
        arith,
        least-key m xs,
        least-key x xs,
        o.lt-le x m,
        o.not_lt-le x m,
        o.beq_sound u m,
        o.beq_sound u x,
        least-bound x xs u,
        least-bound m xs u,
      )

  least-has : (m : T) (xs : List T) → has (least m xs) (m ∷ xs) ≡ true
  unfolding has least
  least-has m [] = rw (o.beq_refl m) refl
  least-has m (x ∷ xs) = ground (arith, least-has m xs, least-has x xs)

  pub first-has : (xs : List T) (t : T) → first xs ≡ some t → has t xs ≡ true
  unfolding first
  first-has [] t h = cc
  first-has (x ∷ xs) t h = let e : least x xs ≡ t = cc in rw e at (least-has x xs)

  -- No item of the set is before the first.
  pub first-key : (xs : List T) (t u : T) → first xs ≡ some t → has u xs ≡ true → o.key t ≤ o.key u
  unfolding first
  first-key [] t u h hu = cc
  first-key (x ∷ xs) t u h hu = let e : least x xs ≡ t = cc in rw e at (least-bound x xs u hu)

  pub first-none : (xs : List T) (u : T) → first xs ≡ none → has u xs ≡ false
  unfolding first has
  first-none [] u h = refl
  first-none (x ∷ xs) u h = cc
