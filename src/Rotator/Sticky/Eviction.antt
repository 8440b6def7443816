-- ===== src/Rotator/Sticky/Eviction.antt =====
-- `StickyCache`: what a full cache gives up, and that it never holds too many entries.
use resocks.Base.{
  ℕ, suc, ◌≤◌, ◌<◌, ◌≡◌, refl, ap, ◌∙◌, inl, inr, true, false, Option, none, some, length, leb,
  ◌==◌, if◌then◌else◌, arith, Bool-cases, Option-cases,
}
use resocks.Proxy.{ProxyConfig}
use resocks.Rotator.Sticky.Mirror.{
  IsMirror, remove-absent, remove-there, lookup-remove, remove-IsMirror,
}
use resocks.Rotator.Sticky.{
  StickyEntry, StickyCache, forget, remove, victim, evict, make_room, add, insert, deadline,
}
use resocks.Rust.Collections.{
  insert_entry, lookup, lookup-insert_entry, length-remove_entry, length-remove_entry-some,
  lookup-of_length,
}
use resocks.Rust.Text.{Bytes, bytes_eq}
-- Of all the entries: one that has expired and none expired before it, or, where none has expired,
-- one that is not used later than any.
use resocks.Rotator.Sticky.Victim.{IsVictim, victim-IsVictim}

abbrev pub without : Option Bytes → Bytes → Option StickyEntry → Option StickyEntry
without none key found = found
without (some gone) key found = if bytes_eq key gone then none else found

lookup-evict :
    (c : StickyCache) (v : Option Bytes) (key : Bytes)
    → lookup key (evict c v).map ≡ without v key (lookup key c.map)
unfolding evict
lookup-evict c none key = refl
lookup-evict c (some gone) key = lookup-remove c key gone

length-remove-there :
    (c : StickyCache) (key : Bytes) (e : StickyEntry)
    → lookup key c.map ≡ some e
    → length (remove c key).0.map < length c.map
unfolding forget
length-remove-there c key e h = rw (remove-there c key e h) (length-remove_entry-some key c.map e h)

pub length-remove : (c : StickyCache) (key : Bytes) → length (remove c key).0.map ≤ length c.map
unfolding forget
length-remove c key = elim (Option-cases (lookup key c.map)) [
  | inl absent ↦ rw (remove-absent c key absent) (omega arith)
  | inr (e, there) ↦ rw (remove-there c key e there) (length-remove_entry key c.map)
]

pub remove_limits :
    (c : StickyCache) (key : Bytes)
    → ((remove c key).0.max_entries ≡ c.max_entries)
      × ((remove c key).0.ttl ≡ c.ttl)
      × ((remove c key).0.next_generation ≡ c.next_generation)
unfolding remove forget
remove_limits c key = ground arith

-- What `make_room` gives up: nothing where there is room, else a victim.
abbrev pub GivesUp : StickyCache → ℕ → Option Bytes → Type 0
GivesUp c now none = length c.map < c.max_entries
GivesUp c now (some key) =
    (c.max_entries ≤ length c.map)
    × ((e : StickyEntry) × (lookup key c.map ≡ some e) × IsVictim c now e)

make_room-GivesUp :
    (c : StickyCache) (now : ℕ)
    → IsMirror c
    → 0 < c.max_entries
    → (v : Option Bytes) × GivesUp c now v × (make_room c now ≡ evict c v)
unfolding make_room
make_room-GivesUp c now m some_room = elim (Bool-cases (leb c.max_entries (length c.map))) [
  | inr room ↦ (none, ground arith, rw room (unfold evict in refl))
  | inl full ↦
      let (j, d, there) = lookup-of_length c.map (ground arith) in
      let (key, e, chosen, held, is_victim) = victim-IsVictim c now m j d there in
      (some key, (ground arith, (e, held, is_victim)), rw (full, chosen) refl)
]

length-evict :
    (c : StickyCache) (now : ℕ) (v : Option Bytes)
    → GivesUp c now v
    → length c.map ≤ c.max_entries
    → length (evict c v).map < c.max_entries
unfolding evict
length-evict c now none h small = h
length-evict c now (some key) (full, (e, held, is_victim)) small =
    omega (arith, length-remove-there c key e held)

length-evict-le : (c : StickyCache) (v : Option Bytes) → length (evict c v).map ≤ length c.map
unfolding evict
length-evict-le c none = omega arith
length-evict-le c (some key) = length-remove c key

length-make_room : (c : StickyCache) (now : ℕ) → length (make_room c now).map ≤ length c.map
unfolding make_room
length-make_room c now = ground (arith, length-evict-le c (victim c now))

module _ (instant_max : ℕ) where
  -- The entry that `insert` puts in.
  abbrev pub linked : StickyCache → ProxyConfig → ℕ → StickyEntry
  linked c proxy now = record {
    proxy = proxy;
    last_used = now;
    expires_at = deadline instant_max now c.ttl;
    generation = c.next_generation;
  }

  evict_limits :
      (c : StickyCache) (v : Option Bytes)
      → ((evict c v).max_entries ≡ c.max_entries)
        × ((evict c v).ttl ≡ c.ttl)
        × ((evict c v).next_generation ≡ c.next_generation)
  unfolding evict remove forget
  evict_limits c none = (refl, refl, refl)
  evict_limits c (some key) = ground arith

  lookup-add :
      (c : StickyCache) (addr : Bytes) (proxy : ProxyConfig) (now : ℕ) (key : Bytes)
      → lookup key (add instant_max c addr proxy now).map
        ≡ (if bytes_eq key addr then some (linked c proxy now) else lookup key c.map)
  unfolding add
  lookup-add c addr proxy now key = lookup-insert_entry key addr (linked c proxy now) c.map

  length-add :
      (c : StickyCache) (addr : Bytes) (proxy : ProxyConfig) (now : ℕ)
      → length (add instant_max c addr proxy now).map ≤ suc (length c.map)
  unfolding add insert_entry
  length-add c addr proxy now = omega (arith, length-remove_entry addr c.map)

  module _ (c : StickyCache) (addr : Bytes) (proxy : ProxyConfig) (now : ℕ) where
    insert-add :
        (v : Option Bytes)
        → 0 < c.max_entries
        → make_room (remove c addr).0 now ≡ evict (remove c addr).0 v
        → insert instant_max c addr proxy now
          ≡ add instant_max (evict (remove c addr).0 v) addr proxy now
    unfolding insert
    insert-add v some_room made =
        let on : (c.max_entries == 0) ≡ false = ground arith in
        rw on (ap (λ d. add instant_max d addr proxy now) made)

    linked-evict :
        (v : Option Bytes) → linked (evict (remove c addr).0 v) proxy now ≡ linked c proxy now
    linked-evict v =
        let (_, ttl, generation) = evict_limits (remove c addr).0 v in
        let (_, ttl', generation') = remove_limits c addr in
        rw (ttl, generation, ttl', generation') refl

    lookup-add-evict :
        (v : Option Bytes) (key : Bytes)
        → lookup key (add instant_max (evict (remove c addr).0 v) addr proxy now).map ≡ (
            if bytes_eq key addr
            then some (linked c proxy now)
            else without v key (lookup key c.map))
    lookup-add-evict v key =
        lookup-add (evict (remove c addr).0 v) addr proxy now key
        ∙ elim (Bool-cases (bytes_eq key addr)) [
          | inl same ↦ rw (same, linked-evict v) refl
          | inr other ↦
              rw (other, lookup-evict (remove c addr).0 v key, lookup-remove c key addr, other) refl
        ]

    -- With a bound that is not 0, `insert` puts the new entry in, keeps every other one while there
    -- is room, and otherwise gives up exactly one: an expired one that expired first, or, where none
    -- has expired, one that was not used later than any. All the others are left as they are.
    pub insert-GivesUp :
        IsMirror c
        → 0 < c.max_entries
        → (v : Option Bytes) × GivesUp (remove c addr).0 now v
          × ((key : Bytes)
              → lookup key (insert instant_max c addr proxy now).map ≡ (
                  if bytes_eq key addr
                  then some (linked c proxy now)
                  else without v key (lookup key c.map)))
    insert-GivesUp m some_room =
        let (v, given_up, made) =
          make_room-GivesUp (remove c addr).0 now (remove-IsMirror c addr m)
            (omega (arith, remove_limits c addr)) in
        (
          v,
          given_up,
          λ key.
              ap (λ (d : StickyCache). lookup key d.map) (insert-add v some_room made)
              ∙ lookup-add-evict v key,
        )

    pub insert-off : (c.max_entries == 0) ≡ true → insert instant_max c addr proxy now ≡ c
    unfolding insert
    insert-off off = rw off refl

    pub length-insert : length (insert instant_max c addr proxy now).map ≤ suc (length c.map)
    unfolding insert
    length-insert =
        let c1 = (remove c addr).0 in
        ground (
          arith,
          length-add (make_room c1 now) addr proxy now,
          length-make_room c1 now,
          length-remove c addr,
        )

    add_limits :
        (d : StickyCache)
        → ((add instant_max d addr proxy now).max_entries ≡ d.max_entries)
          × ((add instant_max d addr proxy now).ttl ≡ d.ttl)
    unfolding add
    add_limits d = (refl, refl)

    pub insert_limits :
        IsMirror c
        → ((insert instant_max c addr proxy now).max_entries ≡ c.max_entries)
          × ((insert instant_max c addr proxy now).ttl ≡ c.ttl)
    insert_limits m = elim (Bool-cases (c.max_entries == 0)) [
      | inl off ↦ rw (insert-off off) (refl, refl)
      | inr on ↦
          let c1 = (remove c addr).0 in
          let some_room : 0 < c.max_entries = ground arith in
          let (v, given_up, made) =
            make_room-GivesUp c1 now (remove-IsMirror c addr m)
              (omega (arith, remove_limits c addr)) in
          let (a, b) = add_limits (evict c1 v) in
          let (a', b', _) = evict_limits c1 v in
          let (a'', b'', _) = remove_limits c addr in
          rw (insert-add v some_room made) (a ∙ a' ∙ a'', b ∙ b' ∙ b'')
    ]

    pub insert-small :
        IsMirror c
        → length c.map ≤ c.max_entries
        → length (insert instant_max c addr proxy now).map ≤ c.max_entries
    insert-small m small = elim (Bool-cases (c.max_entries == 0)) [
      | inl off ↦ rw (insert-off off) small
      | inr on ↦
          let c1 = (remove c addr).0 in
          let some_room : 0 < c.max_entries = ground arith in
          let (v, given_up, made) =
            make_room-GivesUp c1 now (remove-IsMirror c addr m)
              (omega (arith, remove_limits c addr)) in
          rw (insert-add v some_room made) (
            omega (
              arith,
              remove_limits c addr,
              length-remove c addr,
              length-evict c1 now v given_up
                  (omega (arith, length-remove c addr, remove_limits c addr)),
              length-add (evict c1 v) addr proxy now,
            ))
    ]
