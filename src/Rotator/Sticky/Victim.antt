-- ===== src/Rotator/Sticky/Victim.antt =====
-- `StickyCache`: which entry `victim` chooses.
use resocks.Base.{
  ℕ, ◌≤◌, ◌<◌, ◌≡◌, ◌⊎◌, refl, sym, ◌∙◌, inl, inr, true, false, Option, none, some, leb, arith,
  Bool-cases, Option-cases,
}
use resocks.Rotator.Order.{recency_order, expiry_order}
use resocks.Rotator.Sticky.Mirror.{IsMirror, is_use, is_expiry}
use resocks.Rotator.Sticky.{StickyEntry, StickyCache, victim}
use resocks.Rust.Collections.{lookup, has, first, first-has, first-key, first-none}
use resocks.Rust.Text.{Bytes}

-- Of all the entries: one that has expired and none expired before it, or, where none has expired,
-- one that is not used later than any.

abbrev pub IsVictim : StickyCache → ℕ → StickyEntry → Type 0
IsVictim c now e =
    ((e.expires_at ≤ now)
      × ((j : Bytes) (d : StickyEntry) → lookup j c.map ≡ some d → e.expires_at ≤ d.expires_at))
    ⊎ ((j : Bytes) (d : StickyEntry)
        → lookup j c.map ≡ some d
        → (now < d.expires_at) × (e.last_used ≤ d.last_used))

is_use-there :
    (at generation : ℕ) (o : Option StickyEntry) (key : Bytes)
    → is_use (at, generation, key) o ≡ true
    → (e : StickyEntry) × (o ≡ some e) × (e.last_used ≡ at)
is_use-there at generation none key h = cc
is_use-there at generation (some e) key h = (e, refl, ground arith)

is_expiry-there :
    (at : ℕ) (o : Option StickyEntry) (key : Bytes)
    → is_expiry (at, key) o ≡ true
    → (e : StickyEntry) × (o ≡ some e) × (e.expires_at ≡ at)
is_expiry-there at none key h = cc
is_expiry-there at (some e) key h = (e, refl, ground arith)

module _ (c : StickyCache) (now : ℕ) (m : IsMirror c) where
  recency-of :
      (j : Bytes) (d : StickyEntry)
      → lookup j c.map ≡ some d
      → has recency_order (d.last_used, d.generation, j) c.recency ≡ true
  recency-of j d h = m.recent (d.last_used, d.generation, j) ∙ rw h (ground arith)

  expiry-of :
      (j : Bytes) (d : StickyEntry)
      → lookup j c.map ≡ some d
      → has expiry_order (d.expires_at, j) c.expiry ≡ true
  expiry-of j d h = m.expiring (d.expires_at, j) ∙ rw h (ground arith)

  -- The first expiry record is that of an entry.
  first_expiry :
      (at : ℕ) (key : Bytes)
      → first expiry_order c.expiry ≡ some (at, key)
      → (e : StickyEntry) × (lookup key c.map ≡ some e) × (e.expires_at ≡ at)
  first_expiry at key h =
      is_expiry-there at (lookup key c.map) key
        (sym (m.expiring (at, key)) ∙ first-has expiry_order c.expiry (at, key) h)

  first_recency :
      (at generation : ℕ) (key : Bytes)
      → first recency_order c.recency ≡ some (at, generation, key)
      → (e : StickyEntry) × (lookup key c.map ≡ some e) × (e.last_used ≡ at)
  first_recency at generation key h = is_use-there at generation (lookup key c.map) key (
      sym (m.recent (at, generation, key))
      ∙ first-has recency_order c.recency (at, generation, key) h)

  -- Nothing has expired if the first record has not.
  unexpired :
      (at : ℕ) (key : Bytes)
      → first expiry_order c.expiry ≡ some (at, key)
      → leb at now ≡ false
      → (j : Bytes) (d : StickyEntry) → lookup j c.map ≡ some d
      → now < d.expires_at
  unexpired at key h late j d there =
      ground
        (arith, first-key expiry_order c.expiry (at, key) (d.expires_at, j) h (expiry-of j d there))

  used_first :
      (at generation : ℕ) (key : Bytes)
      → first recency_order c.recency ≡ some (at, generation, key)
      → (j : Bytes) (d : StickyEntry) → lookup j c.map ≡ some d
      → at ≤ d.last_used
  used_first at generation key h j d there =
      first-key recency_order c.recency (at, generation, key) (d.last_used, d.generation, j) h
        (recency-of j d there)

  no_expiry :
      first expiry_order c.expiry ≡ none
      → (j : Bytes) (d : StickyEntry) → ¬ (lookup j c.map ≡ some d)
  no_expiry h j d there =
      let gone = first-none expiry_order c.expiry (d.expires_at, j) h in
      let there' = expiry-of j d there in cc

  no_recency :
      first recency_order c.recency ≡ none
      → (j : Bytes) (d : StickyEntry) → ¬ (lookup j c.map ≡ some d)
  no_recency h j d there =
      let gone = first-none recency_order c.recency (d.last_used, d.generation, j) h in
      let there' = recency-of j d there in cc

  abbrev Victim : Type 0
  Victim =
      (key : Bytes) × (e : StickyEntry) × (victim c now ≡ some key)
      × (lookup key c.map ≡ some e)
      × IsVictim c now e

  victim-of_recency :
      (at : ℕ) (key : Bytes) (j : Bytes) (d : StickyEntry)
      → lookup j c.map ≡ some d
      → first expiry_order c.expiry ≡ some (at, key)
      → leb at now ≡ false
      → Victim
  unfolding victim
  victim-of_recency at key j d there h late = elim (Option-cases (first recency_order c.recency)) [
    | inl nothing ↦ absurd (no_recency nothing j d there)
    | inr ((used, generation, k), least) ↦
        let (e, held, e_used) = first_recency used generation k least in
        (
          k,
          e,
          rw (h, late, least, victim) refl,
          held,
          inr (λ j' d' t'. (
            unexpired at key h late j' d' t',
            rw e_used (used_first used generation k least j' d' t'),
          )),
        )
  ]

  -- A cache that is not empty has a victim.
  pub victim-IsVictim : (j : Bytes) (d : StickyEntry) → lookup j c.map ≡ some d → Victim
  unfolding victim
  victim-IsVictim j d there = elim (Option-cases (first expiry_order c.expiry)) [
    | inl nothing ↦ absurd (no_expiry nothing j d there)
    | inr ((at, key), least) ↦ elim (Bool-cases (leb at now)) [
      | inr late ↦ victim-of_recency at key j d there least late
      | inl expired ↦
          let (e, held, e_expires) = first_expiry at key least in
          (
            key,
            e,
            rw (least, expired, victim) refl,
            held,
            inl (
              ground arith,
              λ j' d' t'. rw e_expires (
                  first-key expiry_order c.expiry (at, key) (d'.expires_at, j') least
                    (expiry-of j' d' t')),
            ),
          )
    ]
  ]

-- The map without this key.
