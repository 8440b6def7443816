-- ===== src/Rotator/Sticky/Complete.antt =====
-- `StickyCache` with room for every link: its answers are those of an unbounded table.
use resocks.Base.{
  ℕ, suc, ◌+◌, ◌≤◌, ◌<◌, ◌≡◌, ◌⊎◌, refl, ap, ◌∙◌, inl, inr, Option, none, some, List, [], ◌∷◌,
  length, leb, arith, Bool-cases, Option-cases,
}
use resocks.Proxy.{ProxyConfig}
use resocks.Rotator.Sticky.Eviction.{
  insert-GivesUp, length-insert, GivesUp, length-remove, remove_limits, linked,
}
use resocks.Rotator.Sticky.History.{
  Operation, link, unlink, get_linked, Table, no_links, unexpired, run, table_after, table_run,
  Refines, after-Refines, new-Refines,
}
use resocks.Rotator.Sticky.Mirror.{lookup-remove, get-absent, get-there}
use resocks.Rotator.Sticky.{StickyEntry, StickyCache, new, remove, refresh, get, insert}
use resocks.Rust.Collections.{lookup, lookup-insert_entry, insert_entry, length-remove_entry-some}
use resocks.Rust.Text.{Bytes, bytes_eq, bytes_eq_sound}

-- How often a target is linked.
abbrev pub links : List (ℕ × Operation) → ℕ
links [] = 0
links ((now, link addr proxy) ∷ ops) = suc (links ops)
links ((now, unlink addr) ∷ ops) = links ops
links ((now, get_linked addr) ∷ ops) = links ops

-- The instants do not fall, from this one on.
abbrev pub Ascends : ℕ → List (ℕ × Operation) → Type 0
Ascends past [] = Unit
Ascends past ((now, op) ∷ ops) = (past ≤ now) × Ascends now ops

-- Each link that has not expired is in the cache.
abbrev Keeps : StickyCache → Table → ℕ → Type 0
Keeps c t past =
    (key : Bytes) (proxy : ProxyConfig) (expires_at : ℕ)
    → t key ≡ some (proxy, expires_at)
    → (expires_at ≤ past) ⊎ ((e : StickyEntry) × (lookup key c.map ≡ some e))

module _ (instant_max max_entries ttl : ℕ) where
  get-unexpired :
      (c : StickyCache) (t : Table) (addr : Bytes) (past now : ℕ)
      → Refines instant_max c max_entries ttl t
      → Keeps c t past
      → past ≤ now
      → (get c addr now).1 ≡ unexpired (t addr) now
  get-unexpired c t addr past now r k le = elim (Option-cases (lookup addr c.map)) [
    | inr (e, there) ↦ rw (get-there c addr now e there, r.held addr e there) (ground arith)
    | inl absent ↦ elim (Option-cases (t addr)) [
      | inl nothing ↦ rw (get-absent c addr now absent, nothing) refl
      | inr ((proxy, expires_at), linked_to) ↦ elim (k addr proxy expires_at linked_to) [
        | inl late ↦ rw (get-absent c addr now absent, linked_to) (ground arith)
        | inr (e, there) ↦ cc
      ]
    ]
  ]

  get_there-Keeps :
      (c : StickyCache) (t : Table) (addr : Bytes) (now : ℕ) (d : StickyEntry)
      → Refines instant_max c max_entries ttl t
      → lookup addr c.map ≡ some d
      → (key : Bytes) (proxy : ProxyConfig) (expires_at : ℕ) (e : StickyEntry)
      → t key ≡ some (proxy, expires_at)
      → lookup key c.map ≡ some e
      → (expires_at ≤ now) ⊎ ((e' : StickyEntry) × (lookup key (get c addr now).0.map ≡ some e'))
  unfolding refresh
  get_there-Keeps c t addr now d r there key proxy expires_at e linked_to held =
      let d' : StickyEntry = record d { last_used = now; generation = c.next_generation } in
      elim (Bool-cases (leb d.expires_at now)) [
        | inl expired ↦ elim (Bool-cases (bytes_eq key addr)) [
          | inl same ↦
              let is_addr = bytes_eq_sound key addr same in
              let was = r.held addr d there in inl (ground arith)
          | inr other ↦
              inr (
                e,
                rw (get-there c addr now d there, expired, lookup-remove c key addr, other) held,
              )
        ]
        | inr live ↦ elim (Bool-cases (bytes_eq key addr)) [
          | inl same ↦ inr (
            d',
            rw (get-there c addr now d there, live, lookup-insert_entry key addr d' c.map, same)
                refl,
          )
          | inr other ↦ inr (
            e,
            rw (get-there c addr now d there, live, lookup-insert_entry key addr d' c.map, other)
                held,
          )
        ]
      ]

  get-Keeps :
      (c : StickyCache) (t : Table) (addr : Bytes) (past now : ℕ)
      → Refines instant_max c max_entries ttl t
      → Keeps c t past
      → past ≤ now
      → Keeps (get c addr now).0 t now
  get-Keeps c t addr past now r k le key proxy expires_at linked_to =
      elim (k key proxy expires_at linked_to) [
        | inl late ↦ inl (omega arith)
        | inr (e, held) ↦ elim (Option-cases (lookup addr c.map)) [
          | inl absent ↦ rw (get-absent c addr now absent) (inr (e, held))
          | inr (d, there) ↦
              get_there-Keeps c t addr now d r there key proxy expires_at e linked_to held
        ]
      ]

  nothing_given_up :
      (c : StickyCache) (addr : Bytes) (now : ℕ) (v : Option Bytes)
      → GivesUp (remove c addr).0 now v
      → length c.map < c.max_entries
      → v ≡ none
  nothing_given_up c addr now none given_up room = refl
  nothing_given_up c addr now (some key) (full, _) room =
      absurd (omega (arith, length-remove c addr, remove_limits c addr))

  remove-Keeps :
      (c : StickyCache) (t : Table) (addr : Bytes) (past now : ℕ)
      → Keeps c t past
      → past ≤ now
      → Keeps (remove c addr).0 (table_after instant_max ttl t (now, unlink addr)).0 now
  remove-Keeps c t addr past now k le key p x linked_to = elim (Bool-cases (bytes_eq key addr)) [
    | inl same ↦
        let gone : ◌≡◌ {A = Option (ProxyConfig × ℕ)} none (some (p, x)) = rw same at linked_to in
        cc
    | inr other ↦ elim (k key p x (rw other at linked_to)) [
      | inl late ↦ inl (omega arith)
      | inr (e, held) ↦ inr (e, lookup-remove c key addr ∙ rw other held)
    ]
  ]

  insert-Keeps :
      (c : StickyCache) (t : Table) (addr : Bytes) (proxy : ProxyConfig) (past now : ℕ)
      → Refines instant_max c max_entries ttl t
      → Keeps c t past
      → past ≤ now
      → length c.map < max_entries
      → Keeps
          (insert instant_max c addr proxy now)
          (table_after instant_max ttl t (now, link addr proxy)).0
          now
  insert-Keeps c t addr proxy past now r k le room key p x linked_to =
      let (v, given_up, found) =
        insert-GivesUp instant_max c addr proxy now r.mirror (omega (arith, r.limit)) in
      elim (Bool-cases (bytes_eq key addr)) [
        | inl same ↦ inr (linked instant_max c proxy now, found key ∙ rw same refl)
        | inr other ↦ elim (k key p x (rw other at linked_to)) [
          | inl late ↦ inl (omega arith)
          | inr (e, held) ↦ inr (
            e,
            found key
                ∙ rw (other, nothing_given_up c addr now v given_up (omega (arith, r.limit)), held)
                    refl,
          )
        ]
      ]

  length-get :
      (c : StickyCache) (addr : Bytes) (now : ℕ) → length (get c addr now).0.map ≤ length c.map
  unfolding refresh insert_entry
  length-get c addr now = elim (Option-cases (lookup addr c.map)) [
    | inl absent ↦ rw (get-absent c addr now absent) (omega arith)
    | inr (e, there) ↦
        rw (get-there c addr now e there)
          (ground (arith, length-remove c addr, length-remove_entry-some addr c.map e))
  ]

  run-eq-table_run :
      (c : StickyCache) (t : Table) (past : ℕ) (ops : List (ℕ × Operation))
      → Refines instant_max c max_entries ttl t
      → Keeps c t past
      → Ascends past ops
      → length c.map + links ops ≤ max_entries
      → (run instant_max c ops).1 ≡ table_run instant_max ttl t ops
  run-eq-table_run c t past [] r k asc room = refl
  run-eq-table_run c t past ((now, link addr proxy) ∷ ops) r k (le, asc) room = ap (◌∷◌ none) (
      run-eq-table_run (insert instant_max c addr proxy now) _ now ops
        (after-Refines instant_max max_entries ttl c t (now, link addr proxy) r).0
        (insert-Keeps c t addr proxy past now r k le (omega arith)) asc
        (omega (arith, length-insert instant_max c addr proxy now)))
  run-eq-table_run c t past ((now, unlink addr) ∷ ops) r k (le, asc) room = ap (◌∷◌ none) (
      run-eq-table_run (remove c addr).0 _ now ops
        (after-Refines instant_max max_entries ttl c t (now, unlink addr) r).0
        (remove-Keeps c t addr past now k le) asc (omega (arith, length-remove c addr)))
  run-eq-table_run c t past ((now, get_linked addr) ∷ ops) r k (le, asc) room =
      ap (λ answer. answer ∷ (run instant_max (get c addr now).0 ops).1)
        (get-unexpired c t addr past now r k le)
      ∙ ap (◌∷◌ (unexpired (t addr) now)) (
          run-eq-table_run (get c addr now).0 t now ops
            (after-Refines instant_max max_entries ttl c t (now, get_linked addr) r).0
            (get-Keeps c t addr past now r k le) asc (omega (arith, length-get c addr now)))

  -- If no more targets are linked than the cache holds, and the instants do not fall, every answer of
  -- a new cache is that of the unbounded table.
  pub run-eq-table :
      (ops : List (ℕ × Operation))
      → Ascends 0 ops
      → links ops ≤ max_entries
      → (run instant_max (new max_entries ttl) ops).1 ≡ table_run instant_max ttl no_links ops
  unfolding new
  run-eq-table ops asc room =
      run-eq-table_run (new max_entries ttl) no_links 0 ops
        (new-Refines instant_max max_entries ttl) (λ key proxy expires_at h. cc) asc (omega arith)
