-- ===== src/Rotator/Slots/Found.antt =====
-- The buckets and the slots in them: what is found there, and what a push adds.
use resocks.Base.{
  ℕ, zero, suc, ◌≡◌, refl, true, false, ◌&&◌, ◌||◌, none, some, List, [], ◌∷◌, ◌++◌, length,
  get_elem?, arith, inl, inr, Bool-cases, Option-cases, ◌==◌, if◌then◌else◌,
}
use resocks.Proxy.{ProxyConfig}
use resocks.Rotator.Slots.{same_upstream, Buckets, bucket, push, slots_of, is_at, find_slot}
use resocks.Rust.Text.{contains, contains-append}

-- A slot holds the upstream.

abbrev pub Holds : List ProxyConfig → ℕ → ProxyConfig → Type 0
Holds proxies i p = (q : ProxyConfig) × (get_elem? proxies i ≡ some q) × (same_upstream p q ≡ true)

pub get_elem?-append_one {ℓ} :
    {A : Type ℓ} (xs : List A) (x : A) (i : ℕ)
    → get_elem? (xs ++ x ∷ []) i ≡ (if i == length xs then some x else get_elem? xs i)
get_elem?-append_one [] x zero = refl
get_elem?-append_one [] x (suc i) = ground arith
get_elem?-append_one (y ∷ xs) x zero = ground arith
get_elem?-append_one (y ∷ xs) x (suc i) = ground (arith, get_elem?-append_one xs x i)

get_elem?-length {ℓ} : {A : Type ℓ} (xs : List A) → get_elem? xs (length xs) ≡ none
get_elem?-length [] = refl
get_elem?-length (x ∷ xs) = get_elem?-length xs

is_at-Holds : (p : ProxyConfig) (ps : List ProxyConfig) (i : ℕ) → is_at p ps i ≡ true → Holds ps i p
is_at-Holds p ps i h = elim (Option-cases (get_elem? ps i)) [
  | inl absent ↦ let bad : false ≡ true = rw (absent, is_at) at h in cc
  | inr (q, there) ↦ (q, there, rw (there, is_at) at h)
]

Holds-is_at : (p : ProxyConfig) (ps : List ProxyConfig) (i : ℕ) → Holds ps i p → is_at p ps i ≡ true
Holds-is_at p ps i (q, there, same) = rw (there, is_at) same

pub find_slot-Holds :
    (p : ProxyConfig) (ps : List ProxyConfig) (slots : List ℕ) (i : ℕ)
    → find_slot p ps slots ≡ some i
    → Holds ps i p
unfolding find_slot
find_slot-Holds p ps [] i h = cc
find_slot-Holds p ps (j ∷ slots) i h = elim (Bool-cases (is_at p ps j)) [
  | inl here ↦
      let found : some j ≡ some i = rw here at h in
      let e : j ≡ i = cc in rw e at (is_at-Holds p ps j here)
  | inr later ↦ find_slot-Holds p ps slots i (rw later at h)
]

pub find_slot-some :
    (p : ProxyConfig) (ps : List ProxyConfig) (slots : List ℕ) (i : ℕ)
    → contains i slots ≡ true
    → Holds ps i p
    → (j : ℕ) × (find_slot p ps slots ≡ some j)
unfolding find_slot contains
find_slot-some p ps [] i h held = cc
find_slot-some p ps (j ∷ slots) i h held = elim (Bool-cases (is_at p ps j)) [
  | inl here ↦ (j, rw here refl)
  | inr later ↦
      let at_i = Holds-is_at p ps i held in
      let (k, found) = find_slot-some p ps slots i (ground arith) held in (k, rw later found)
]

bucket-push :
    (h k slot : ℕ) (bs : Buckets)
    → bucket h (push k slot bs)
      ≡ (if h == k then some (slots_of (bucket k bs) ++ slot ∷ []) else bucket h bs)
unfolding bucket push
bucket-push h k slot [] = ground arith
bucket-push h k slot ((j, slots) ∷ bs) = ground (arith, bucket-push h k slot bs)

contains_last :
    (i j : ℕ) (slots : List ℕ) → contains i (slots ++ j ∷ []) ≡ (contains i slots || j == i)
unfolding contains
contains_last i j slots = ground (arith, contains-append i slots (j ∷ []))

pub contains-push :
    (i h k slot : ℕ) (bs : Buckets)
    → contains i (slots_of (bucket h (push k slot bs)))
      ≡ (contains i (slots_of (bucket h bs)) || (h == k && slot == i))
contains-push i h k slot bs = elim (Bool-cases (h == k)) [
  | inl same ↦
      let e : h ≡ k = ground arith in
      rw (bucket-push h k slot bs, same, contains_last i slot (slots_of (bucket k bs)), ← e) refl
  | inr other ↦ rw (bucket-push h k slot bs, other) (ground arith)
]
