-- ===== src/Rotator/Sticky/History.antt =====
-- `StickyCache` against an unbounded table: a target is sent to the upstream that it was last linked
-- to, or to none.
use resocks.Base.{
  ℕ, ◌≤◌, ◌<◌, ◌≡◌, ◌⊎◌, refl, sym, ◌∙◌, inl, inr, Bool, true, false, Option, none, some, List, [],
  ◌∷◌, length, leb, ◌==◌, if◌then◌else◌, arith, Bool-cases, Option-cases,
}
use resocks.Proxy.{ProxyConfig}
use resocks.Rotator.Sticky.Eviction.{
  insert-GivesUp, insert-small, insert-off, insert_limits, remove_limits, length-remove, without,
  linked,
}
use resocks.Rotator.Sticky.Mirror.{
  IsMirror, lookup-remove, get-absent, get-there, remove-IsMirror, refresh-IsMirror,
  insert-IsMirror, new-IsMirror,
}
use resocks.Rotator.Sticky.{StickyEntry, StickyCache, new, remove, refresh, get, insert, deadline}
use resocks.Rust.Collections.{
  lookup, insert_entry, lookup-insert_entry, lookup-of_empty, length-remove_entry-some,
}
use resocks.Rust.Text.{Bytes, bytes_eq, bytes_eq_sound}

pub data Operation : Type 0 where
  link : Bytes → ProxyConfig → Operation
  unlink : Bytes → Operation
  get_linked : Bytes → Operation

-- What a target was last linked to, and until when.
abbrev pub Table : Type 0
Table = Bytes → Option (ProxyConfig × ℕ)

abbrev pub no_links : Table
no_links key = none

abbrev pub unexpired : Option (ProxyConfig × ℕ) → ℕ → Option ProxyConfig
unexpired none now = none
unexpired (some (proxy, expires_at)) now = if leb expires_at now then none else some proxy

abbrev pub is_none {ℓ} : {A : Type ℓ} → Option A → Bool
is_none none = true
is_none (some a) = false

module _ (instant_max : ℕ) where
  -- `link_proxy`, `unlink_proxy` and the cache's part of `get_linked`.
  abbrev pub after : StickyCache → ℕ × Operation → StickyCache × Option ProxyConfig
  after c (now, link addr proxy) = (insert instant_max c addr proxy now, none)
  after c (now, unlink addr) = ((remove c addr).0, none)
  after c (now, get_linked addr) = get c addr now

  abbrev pub run : StickyCache → List (ℕ × Operation) → StickyCache × List (Option ProxyConfig)
  run c [] = (c, [])
  run c (op ∷ ops) =
      let (c', answer) = after c op in let (c2, answers) = run c' ops in (c2, answer ∷ answers)

  module _ (ttl : ℕ) where
    abbrev pub table_after : Table → ℕ × Operation → Table × Option ProxyConfig
    table_after t (now, link addr proxy) = (
      λ key. if bytes_eq key addr then some (proxy, deadline instant_max now ttl) else t key,
      none,
    )
    table_after t (now, unlink addr) = (λ key. if bytes_eq key addr then none else t key, none)
    table_after t (now, get_linked addr) = (t, unexpired (t addr) now)

    abbrev pub table_run : Table → List (ℕ × Operation) → List (Option ProxyConfig)
    table_run t [] = []
    table_run t (op ∷ ops) = let (t', answer) = table_after t op in answer ∷ table_run t' ops

  -- The cache's answers are the table's, or none.
  abbrev pub AllAgree : List (Option ProxyConfig) → List (Option ProxyConfig) → Type 0
  AllAgree [] [] = Unit
  AllAgree (x ∷ xs) (y ∷ ys) = ((x ≡ none) ⊎ (x ≡ y)) × AllAgree xs ys
  AllAgree _ _ = ⊥

  pub record Refines (c : StickyCache) (max_entries ttl : ℕ) (t : Table) : Type 0 where
    pub mirror : IsMirror c
    pub limit : c.max_entries ≡ max_entries
    pub lifetime : c.ttl ≡ ttl
    pub small : length c.map ≤ c.max_entries
    pub held :
        (key : Bytes) (e : StickyEntry)
        → lookup key c.map ≡ some e
        → t key ≡ some (e.proxy, e.expires_at)

  without-held :
      (v : Option Bytes) (key : Bytes) (o : Option StickyEntry) (e : StickyEntry)
      → without v key o ≡ some e
      → o ≡ some e
  without-held none key o e h = h
  without-held (some gone) key o e h = ground arith

  insert-held :
      (c : StickyCache) (t : Table) (max_entries ttl : ℕ) (addr : Bytes) (proxy : ProxyConfig)
      (now : ℕ)
      → Refines c max_entries ttl t
      → 0 < c.max_entries
      → (key : Bytes) (e : StickyEntry)
      → lookup key (insert instant_max c addr proxy now).map ≡ some e
      → (table_after ttl t (now, link addr proxy)).0 key ≡ some (e.proxy, e.expires_at)
  insert-held c t max_entries ttl addr proxy now r some_room key e there =
      let (v, _, found) = insert-GivesUp instant_max c addr proxy now r.mirror some_room in
      let there' = sym (found key) ∙ there in
      elim (Bool-cases (bytes_eq key addr)) [
        | inl same ↦
            let new_one : some (linked instant_max c proxy now) ≡ some e = rw same at there' in
            rw same (ground (arith, r.lifetime))
        | inr other ↦
            let old : without v key (lookup key c.map) ≡ some e = rw other at there' in
            rw other (r.held key e (without-held v key (lookup key c.map) e old))
      ]

  module _ (max_entries ttl : ℕ) where
    remove-Refines :
        (c : StickyCache) (t t' : Table) (addr : Bytes)
        → Refines c max_entries ttl t
        → ((key : Bytes) → bytes_eq key addr ≡ false → t' key ≡ t key)
        → Refines (remove c addr).0 max_entries ttl t'
    remove-Refines c t t' addr r same =
        let (limit, lifetime, _) = remove_limits c addr in
        record {
          mirror = remove-IsMirror c addr r.mirror;
          limit = limit ∙ r.limit;
          lifetime = lifetime ∙ r.lifetime;
          small = omega (arith, r.small, length-remove c addr, limit);
          held = λ key e there. elim (Bool-cases (bytes_eq key addr)) [
            | inl removed ↦
                let gone : lookup key (remove c addr).0.map ≡ none =
                  lookup-remove c key addr ∙ rw removed refl in
                cc
            | inr kept ↦
                let still : lookup key c.map ≡ some e =
                  rw (lookup-remove c key addr, kept) at there in
                same key kept ∙ r.held key e still
          ];
        }

    insert-Refines :
        (c : StickyCache) (t : Table) (addr : Bytes) (proxy : ProxyConfig) (now : ℕ)
        → Refines c max_entries ttl t
        → Refines
            (insert instant_max c addr proxy now)
            max_entries
            ttl
            (table_after ttl t (now, link addr proxy)).0
    insert-Refines c t addr proxy now r =
        let (limit, lifetime) = insert_limits instant_max c addr proxy now r.mirror in
        record {
          mirror = insert-IsMirror instant_max c addr proxy now r.mirror;
          limit = limit ∙ r.limit;
          lifetime = lifetime ∙ r.lifetime;
          small = omega (arith, insert-small instant_max c addr proxy now r.mirror r.small, limit);
          held = λ key e there. elim (Bool-cases (c.max_entries == 0)) [
            | inr on ↦ insert-held c t max_entries ttl addr proxy now r (ground arith) key e there
            | inl off ↦
                let nothing : lookup key c.map ≡ none =
                  lookup-of_empty key c.map (ground (arith, r.small)) in
                let still : lookup key c.map ≡ some e =
                  rw (insert-off instant_max c addr proxy now off) at there in
                cc
          ];
        }

    refresh-Refines :
        (c : StickyCache) (t : Table) (addr : Bytes) (e : StickyEntry) (now : ℕ)
        → Refines c max_entries ttl t
        → lookup addr c.map ≡ some e
        → Refines (refresh c addr e now) max_entries ttl t
    unfolding refresh insert_entry
    refresh-Refines c t addr e now r there = record {
      mirror = refresh-IsMirror c addr e now r.mirror there;
      limit = r.limit;
      lifetime = r.lifetime;
      small = omega (arith, r.small, length-remove_entry-some addr c.map e there);
      held = λ key d t'.
          let e' : StickyEntry = record e { last_used = now; generation = c.next_generation } in
          let found = lookup-insert_entry key addr e' c.map in
          elim (Bool-cases (bytes_eq key addr)) [
            | inl same ↦
                let e_there = r.held addr e there in
                let is_addr = bytes_eq_sound key addr same in ground arith
            | inr other ↦ r.held key d (ground arith)
          ];
    }

    pub get-Refines :
        (c : StickyCache) (t : Table) (addr : Bytes) (now : ℕ)
        → Refines c max_entries ttl t
        → Refines (get c addr now).0 max_entries ttl t
          × (((get c addr now).1 ≡ none) ⊎ ((get c addr now).1 ≡ unexpired (t addr) now))
    get-Refines c t addr now r = elim (Option-cases (lookup addr c.map)) [
      | inl absent ↦ rw (get-absent c addr now absent) (r, inl refl)
      | inr (e, there) ↦ elim (Bool-cases (leb e.expires_at now)) [
        | inl expired ↦
            rw (get-there c addr now e there, expired)
              (remove-Refines c t t addr r (λ key other. refl), inl refl)
        | inr live ↦
            rw (get-there c addr now e there, live)
              (refresh-Refines c t addr e now r there, inr (rw (r.held addr e there, live) refl))
      ]
    ]

    pub after-Refines :
        (c : StickyCache) (t : Table) (op : ℕ × Operation)
        → Refines c max_entries ttl t
        → Refines (after c op).0 max_entries ttl (table_after ttl t op).0
          × (((after c op).1 ≡ none) ⊎ ((after c op).1 ≡ (table_after ttl t op).1))
    after-Refines c t (now, link addr proxy) r = (insert-Refines c t addr proxy now r, inl refl)
    after-Refines c t (now, unlink addr) r =
        (remove-Refines c t _ addr r (λ key other. rw other refl), inl refl)
    after-Refines c t (now, get_linked addr) r = get-Refines c t addr now r

    run-Refines :
        (c : StickyCache) (t : Table) (ops : List (ℕ × Operation))
        → Refines c max_entries ttl t
        → AllAgree (run c ops).1 (table_run ttl t ops)
          × (length (run c ops).0.map ≤ max_entries)
          × IsMirror (run c ops).0
    run-Refines c t [] r = (tt, omega (arith, r.small, r.limit), r.mirror)
    run-Refines c t (op ∷ ops) r =
        let (r', agree) = after-Refines c t op r in
        let (agrees, small, mirror) = run-Refines (after c op).0 (table_after ttl t op).0 ops r' in
        ((agree, agrees), small, mirror)

    pub new-Refines : Refines (new max_entries ttl) max_entries ttl no_links
    unfolding new lookup
    new-Refines = record {
      mirror = new-IsMirror max_entries ttl;
      limit = refl;
      lifetime = refl;
      small = omega arith;
      held = λ key e there. cc;
    }

    -- Whatever targets are linked, unlinked and looked up, at whatever instants, each answer of the
    -- cache is none or the upstream that the target was last linked to, not unlinked since and not
    -- expired.
    pub run-table_run :
        (ops : List (ℕ × Operation))
        → AllAgree (run (new max_entries ttl) ops).1 (table_run ttl no_links ops)
    run-table_run ops = (run-Refines (new max_entries ttl) no_links ops new-Refines).0

    -- After any operations on a new cache there are at most `max_entries` entries, and each of the
    -- two indices holds one record for each entry and no other.
    pub run-IsMirror :
        (ops : List (ℕ × Operation))
        → (length (run (new max_entries ttl) ops).0.map ≤ max_entries)
          × IsMirror (run (new max_entries ttl) ops).0
    run-IsMirror ops =
        let (_, small, mirror) = run-Refines (new max_entries ttl) no_links ops new-Refines in
        (small, mirror)
