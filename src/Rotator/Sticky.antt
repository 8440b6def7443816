-- ===== src/Rotator/Sticky.antt =====
-- crates/resocks5-net/src/session/rotator/mod.rs, `StickyCache`: which upstream a target was last
-- reached through, bounded in number and in time. Instants count nanoseconds.
use resocks.Base.{
  ℕ, ◌+◌, ◌*◌, ◌%◌, ◌^◌, ◌≤◌, ◌≡◌, refl, Bool, true, false, ◌&&◌, ◌||◌, Option, none, some, List,
  [], ◌∷◌, length, ltb, leb, ◌==◌, if◌then◌else◌, arith,
}
use resocks.Base.Words.{from_secs}
use resocks.Proxy.{ProxyConfig}
use resocks.Rust.Collections.{lookup, remove_entry, insert_entry, remove_item, insert_item, first}
use resocks.Rust.Text.{Bytes}
use resocks.Rotator.Order.{Recency, Expiry, recency_order, expiry_order}
pub mod Mirror
pub mod Complete
pub mod Eviction
pub mod Victim
pub mod History

abbrev pub default_sticky_cache_max_entries : ℕ
default_sticky_cache_max_entries = 4096

abbrev pub default_sticky_cache_ttl : ℕ
default_sticky_cache_ttl = from_secs 600

pub record StickyEntry : Type 0 where
  pub proxy : ProxyConfig
  pub last_used : ℕ
  pub expires_at : ℕ
  pub generation : ℕ

pub record StickyCache : Type 0 where
  pub max_entries : ℕ
  pub ttl : ℕ
  pub map : List (Bytes × StickyEntry)
  pub recency : List Recency
  pub expiry : List Expiry
  pub next_generation : ℕ

unfoldable pub new : ℕ → ℕ → StickyCache
new max_entries ttl = record {
  max_entries = max_entries;
  ttl = ttl;
  map = [];
  recency = [];
  expiry = [];
  next_generation = 0;
}

-- `u64::wrapping_add(1)`.
abbrev wrapping_suc : ℕ → ℕ
wrapping_suc n = (n + 1) % 2 ^ 64

-- What is left behind `remove`, of an entry that is there.
pub forget : StickyCache → Bytes → StickyEntry → StickyCache
forget c addr e = record c {
  map = remove_entry addr c.map;
  recency = remove_item recency_order (e.last_used, e.generation, addr) c.recency;
  expiry = remove_item expiry_order (e.expires_at, addr) c.expiry;
}

unfoldable pub remove : StickyCache → Bytes → StickyCache × Option Bytes
unfolding forget
remove c addr = elim (lookup addr c.map) [
  | none ↦ (c, none)
  | some e ↦ (forget c addr e, some addr)
]

-- The new entry, and its records in both indices.
pub refresh : StickyCache → Bytes → StickyEntry → ℕ → StickyCache
refresh c addr e now = record c {
  map = insert_entry addr (record e { last_used = now; generation = c.next_generation }) c.map;
  recency =
      insert_item recency_order (now, c.next_generation, addr)
        (remove_item recency_order (e.last_used, e.generation, addr) c.recency);
  next_generation = wrapping_suc c.next_generation;
}

unfoldable pub get : StickyCache → Bytes → ℕ → StickyCache × Option ProxyConfig
unfolding remove refresh
get c addr now = elim (lookup addr c.map) [
  | none ↦ (c, none)
  | some e ↦
      if leb e.expires_at now
      then ((remove c addr).0, none)
      else (refresh c addr e now, some e.proxy)
]

abbrev key_of_expiry : Option Expiry → ℕ → Option Bytes
key_of_expiry none now = none
key_of_expiry (some (deadline, key)) now = if leb deadline now then some key else none

abbrev key_of_recency : Option Recency → Option Bytes
key_of_recency none = none
key_of_recency (some (used, generation, key)) = some key

-- One expired entry before any live entry, else the least recently used.
unfoldable pub victim : StickyCache → ℕ → Option Bytes
victim c now = elim (key_of_expiry (first expiry_order c.expiry) now) [
  | some key ↦ some key
  | none ↦ key_of_recency (first recency_order c.recency)
]

pub evict : StickyCache → Option Bytes → StickyCache
evict c none = c
evict c (some key) = (remove c key).0

unfoldable pub make_room : StickyCache → ℕ → StickyCache
unfolding victim evict
make_room c now = if leb c.max_entries (length c.map) then evict c (victim c now) else c

module _ (instant_max : ℕ) where
  -- `now.checked_add(ttl).unwrap_or(now)`.
  abbrev pub deadline : ℕ → ℕ → ℕ
  deadline now ttl = if leb (now + ttl) instant_max then now + ttl else now

  unfoldable pub add : StickyCache → Bytes → ProxyConfig → ℕ → StickyCache
  add c addr proxy now =
      let expires_at = deadline now c.ttl in
      record c {
        map =
            insert_entry addr
              (record {
                proxy = proxy;
                last_used = now;
                expires_at = expires_at;
                generation = c.next_generation;
              })
              c.map;
        recency = insert_item recency_order (now, c.next_generation, addr) c.recency;
        expiry = insert_item expiry_order (expires_at, addr) c.expiry;
        next_generation = wrapping_suc c.next_generation;
      }

  unfoldable pub insert : StickyCache → Bytes → ProxyConfig → ℕ → StickyCache
  unfolding make_room add remove
  insert c addr proxy now =
      if c.max_entries == 0 then c else add (make_room (remove c addr).0 now) addr proxy now
