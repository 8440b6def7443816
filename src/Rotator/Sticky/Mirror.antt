-- ===== src/Rotator/Sticky/Mirror.antt =====
-- `StickyCache`: both indices hold exactly one record for each entry, after every operation.
use resocks.Base.{
  ℕ, ◌≡◌, refl, ◌∙◌, inl, inr, Bool, false, ◌&&◌, Option, none, some, length, leb, ◌==◌,
  if◌then◌else◌, arith, Bool-cases, Option-cases,
}
use resocks.Proxy.{ProxyConfig}
use resocks.Rotator.Order.{Recency, Expiry, recency_order, expiry_order}
use resocks.Rotator.Sticky.{
  StickyEntry, StickyCache, new, forget, remove, refresh, get, victim, evict, make_room, add,
  insert, deadline,
}
use resocks.Rust.Collections.{
  lookup, has, remove_item, lookup-remove_entry, lookup-insert_entry, has-remove_item,
  has-insert_item,
}
use resocks.Rust.Text.{Bytes, bytes_eq, bytes_eq_refl, bytes_eq_sound}

-- This is the record of an entry that is there.
abbrev pub is_use : Recency → Option StickyEntry → Bool
is_use u none = false
is_use (at, generation, key) (some e) = at == e.last_used && generation == e.generation

abbrev pub is_expiry : Expiry → Option StickyEntry → Bool
is_expiry u none = false
is_expiry (at, key) (some e) = at == e.expires_at

pub record IsMirror (c : StickyCache) : Type 0 where
  pub recent : (u : Recency) → has recency_order u c.recency ≡ is_use u (lookup u.2 c.map)
  pub expiring : (u : Expiry) → has expiry_order u c.expiry ≡ is_expiry u (lookup u.1 c.map)

pub new-IsMirror : (max_entries ttl : ℕ) → IsMirror (new max_entries ttl)
unfolding new has lookup
new-IsMirror max_entries ttl = record { recent = λ u. refl; expiring = λ u. refl }

forget-IsMirror :
    (c : StickyCache) (addr : Bytes) (e : StickyEntry)
    → IsMirror c
    → lookup addr c.map ≡ some e
    → IsMirror (forget c addr e)
unfolding forget
forget-IsMirror c addr e m h = record {
  recent = λ u.
      let (at, generation, key) = u in
      ground (
        arith,
        has-remove_item recency_order u (e.last_used, e.generation, addr) c.recency,
        lookup-remove_entry key addr c.map,
        m.recent u,
        bytes_eq_sound key addr,
      );
  expiring = λ u.
      let (at, key) = u in
      ground (
        arith,
        has-remove_item expiry_order u (e.expires_at, addr) c.expiry,
        lookup-remove_entry key addr c.map,
        m.expiring u,
        bytes_eq_sound key addr,
      );
}

pub refresh-IsMirror :
    (c : StickyCache) (addr : Bytes) (e : StickyEntry) (now : ℕ)
    → IsMirror c
    → lookup addr c.map ≡ some e
    → IsMirror (refresh c addr e now)
unfolding refresh
refresh-IsMirror c addr e now m h =
    let e' : StickyEntry = record e { last_used = now; generation = c.next_generation } in
    let old : Recency = (e.last_used, e.generation, addr) in
    record {
      recent = λ u.
          let (at, generation, key) = u in
          ground (
            arith,
            has-insert_item recency_order u (now, c.next_generation, addr)
                (remove_item recency_order old c.recency),
            has-remove_item recency_order u old c.recency,
            lookup-insert_entry key addr e' c.map,
            m.recent u,
            bytes_eq_sound key addr,
          );
      expiring = λ u.
          let (at, key) = u in
          ground
            (arith, lookup-insert_entry key addr e' c.map, m.expiring u, bytes_eq_sound key addr);
    }

pub remove-absent :
    (c : StickyCache) (addr : Bytes) → lookup addr c.map ≡ none → remove c addr ≡ (c, none)
unfolding remove
remove-absent c addr h = rw (h, remove) refl

pub remove-there :
    (c : StickyCache) (addr : Bytes) (e : StickyEntry)
    → lookup addr c.map ≡ some e
    → remove c addr ≡ (forget c addr e, some addr)
unfolding remove
remove-there c addr e h = rw (h, remove) refl

pub get-absent :
    (c : StickyCache) (addr : Bytes) (now : ℕ)
    → lookup addr c.map ≡ none
    → get c addr now ≡ (c, none)
unfolding get
get-absent c addr now h = rw (h, get) refl

pub get-there :
    (c : StickyCache) (addr : Bytes) (now : ℕ) (e : StickyEntry)
    → lookup addr c.map ≡ some e
    → get c addr now ≡ (
        if leb e.expires_at now
        then ((remove c addr).0, none)
        else (refresh c addr e now, some e.proxy))
unfolding get
get-there c addr now e h = rw (h, get) refl

pub remove-IsMirror : (c : StickyCache) (addr : Bytes) → IsMirror c → IsMirror (remove c addr).0
remove-IsMirror c addr m = elim (Option-cases (lookup addr c.map)) [
  | inl absent ↦ rw (remove-absent c addr absent) m
  | inr (e, there) ↦ rw (remove-there c addr e there) (forget-IsMirror c addr e m there)
]

pub lookup-remove :
    (c : StickyCache) (key addr : Bytes)
    → lookup key (remove c addr).0.map ≡ (if bytes_eq key addr then none else lookup key c.map)
unfolding forget
lookup-remove c key addr = elim (Option-cases (lookup addr c.map)) [
  | inl absent ↦ rw (remove-absent c addr absent) (ground (arith, bytes_eq_sound key addr))
  | inr (e, there) ↦ rw (remove-there c addr e there) (lookup-remove_entry key addr c.map)
]

pub get-IsMirror :
    (c : StickyCache) (addr : Bytes) (now : ℕ) → IsMirror c → IsMirror (get c addr now).0
get-IsMirror c addr now m = elim (Option-cases (lookup addr c.map)) [
  | inl absent ↦ rw (get-absent c addr now absent) m
  | inr (e, there) ↦ elim (Bool-cases (leb e.expires_at now)) [
    | inl expired ↦ rw (get-there c addr now e there, expired) (remove-IsMirror c addr m)
    | inr live ↦ rw (get-there c addr now e there, live) (refresh-IsMirror c addr e now m there)
  ]
]

evict-IsMirror : (c : StickyCache) (v : Option Bytes) → IsMirror c → IsMirror (evict c v)
unfolding evict
evict-IsMirror c none m = m
evict-IsMirror c (some key) m = remove-IsMirror c key m

pub make_room-IsMirror : (c : StickyCache) (now : ℕ) → IsMirror c → IsMirror (make_room c now)
unfolding make_room
make_room-IsMirror c now m = elim (Bool-cases (leb c.max_entries (length c.map))) [
  | inl full ↦ rw full (evict-IsMirror c (victim c now) m)
  | inr room ↦ rw room m
]

pub lookup-evict :
    (c : StickyCache) (v : Option Bytes) (key : Bytes)
    → lookup key c.map ≡ none
    → lookup key (evict c v).map ≡ none
unfolding evict
lookup-evict c none key h = h
lookup-evict c (some j) key h = ground (arith, lookup-remove c key j)

pub lookup-make_room :
    (c : StickyCache) (now : ℕ) (key : Bytes)
    → lookup key c.map ≡ none
    → lookup key (make_room c now).map ≡ none
unfolding make_room
lookup-make_room c now key h = ground (arith, lookup-evict c (victim c now) key)

module _ (instant_max : ℕ) where
  add-IsMirror :
      (c : StickyCache) (addr : Bytes) (proxy : ProxyConfig) (now : ℕ)
      → IsMirror c
      → lookup addr c.map ≡ none
      → IsMirror (add instant_max c addr proxy now)
  unfolding add
  add-IsMirror c addr proxy now m h =
      let expires_at = deadline instant_max now c.ttl in
      let e : StickyEntry = record {
        proxy = proxy;
        last_used = now;
        expires_at = expires_at;
        generation = c.next_generation;
      } in
      record {
        recent = λ u.
            let (at, generation, key) = u in
            ground (
              arith,
              has-insert_item recency_order u (now, c.next_generation, addr) c.recency,
              lookup-insert_entry key addr e c.map,
              m.recent u,
              bytes_eq_sound key addr,
            );
        expiring = λ u.
            let (at, key) = u in
            ground (
              arith,
              has-insert_item expiry_order u (expires_at, addr) c.expiry,
              lookup-insert_entry key addr e c.map,
              m.expiring u,
              bytes_eq_sound key addr,
            );
      }

  pub insert-IsMirror :
      (c : StickyCache) (addr : Bytes) (proxy : ProxyConfig) (now : ℕ)
      → IsMirror c
      → IsMirror (insert instant_max c addr proxy now)
  unfolding insert
  insert-IsMirror c addr proxy now m = elim (Bool-cases (c.max_entries == 0)) [
    | inl off ↦ rw off m
    | inr on ↦
        let c1 = (remove c addr).0 in
        let gone : lookup addr c1.map ≡ none =
          lookup-remove c addr addr ∙ rw (bytes_eq_refl addr) refl in
        rw on (
          add-IsMirror (make_room c1 now) addr proxy now
            (make_room-IsMirror c1 now (remove-IsMirror c addr m))
            (lookup-make_room c1 now addr gone))
  ]
