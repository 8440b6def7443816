-- ===== src/Auth/State/Hashes.antt =====
-- `AuthState`: entries that are enabled, and the hashes of the users behind a write.
use resocks.Base.{
  ℕ, ◌<◌, get_elem?-total, ◌≡◌, ◌≢◌, refl, ap, subst, inl, inr, Bool, true, false, Option, none,
  some, List, length, Option-cases, get_elem?, length-set, get_elem?-set, get_elem?-set_other,
  if◌then◌else◌,
}
use resocks.Auth.State.{User, UserEntry, hash_at, set_hash, if_enabled, enabled_entry}
use resocks.Rust.Collections.{lookup}
use resocks.Rust.Text.{Bytes, bytes_eq, bytes_eq_sound}

if-some {ℓ} :
    {A : Type ℓ} (b : Bool) (x y : A) → (if b then some x else none) ≡ some y → (b ≡ true) × (x ≡ y)
if-some true x y h = (refl, cc)
if-some false x y h = cc

if_enabled-some :
    (o : Option UserEntry) (e : UserEntry)
    → if_enabled o ≡ some e
    → (o ≡ some e) × (e.enabled ≡ true)
if_enabled-some none e h = cc
if_enabled-some (some d) e h =
    let (on, same) = if-some d.enabled d e h in
    (ap some same, subst (λ x. x.enabled ≡ true) same on)

pub enabled_entry-lookup :
    (entries : List (Bytes × UserEntry)) (name : Bytes) (e : UserEntry)
    → enabled_entry entries name ≡ some e
    → (lookup name entries ≡ some e) × (e.enabled ≡ true)
unfolding enabled_entry
enabled_entry-lookup entries name e h = if_enabled-some (lookup name entries) e h

pub cache_hit-some :
    (o : Option Bytes) (mac : Bytes)
    → (elim o [ none ↦ false | some cached ↦ bytes_eq cached mac ]) ≡ true
    → o ≡ some mac
cache_hit-some none mac h = cc
cache_hit-some (some cached) mac h = ap some (bytes_eq_sound cached mac h)

module _ (users : List User) (idx : ℕ) (h : Bytes) where
  pub length-set_hash : length (set_hash users idx h) ≡ length users
  length-set_hash = elim (Option-cases (get_elem? users idx)) [
    | inl nothing ↦ rw nothing refl
    | inr (u, there) ↦ rw there (length-set users idx _)
  ]

  pub hash_at-set_hash :
      (k : Bytes) → hash_at users idx ≡ some k → hash_at (set_hash users idx h) idx ≡ some h
  hash_at-set_hash k here = elim (Option-cases (get_elem? users idx)) [
    | inl nothing ↦ let bad : ◌≡◌ {A = Option Bytes} none (some k) = rw nothing at here in cc
    | inr (u, there) ↦ rw there (rw (get_elem?-set users idx (record u { hash = h }) u there) refl)
  ]

  pub hash_at-set_hash_other :
      (j : ℕ) → j ≢ idx → hash_at (set_hash users idx h) j ≡ hash_at users j
  hash_at-set_hash_other j other = elim (Option-cases (get_elem? users idx)) [
    | inl nothing ↦ rw nothing refl
    | inr (u, there) ↦
        rw there (rw (get_elem?-set_other users idx j (record u { hash = h }) other) refl)
  ]

pub hash_at-inside :
    (users : List User) (idx : ℕ) → idx < length users → hash_at users idx ≡ none → ⊥
hash_at-inside users idx inside outside =
    let (u, there) = get_elem?-total users idx inside in
    let bad : ◌≡◌ {A = Option Bytes} (some u.hash) none = rw there at outside in cc
