-- ===== src/Rotator/Slots.antt =====
-- crates/resocks5-net/src/session/rotator/mod.rs: one slot for each upstream, found by its hash.
-- The hash of the standard library's `RandomState` is a parameter: any function of what is hashed.
use resocks.Base.{
  ℕ, zero, suc, Bool, true, false, ◌&&◌, ◌||◌, Option, none, some, List, [], ◌∷◌, ◌++◌, length,
  get_elem?, ◌==◌, if◌then◌else◌,
}
use resocks.Proxy.{ProxyConfig, own}
use resocks.Proxy.Chain.Identity.{discriminant, option_eq}
use resocks.Rust.Text.{Bytes, bytes_eq}
pub mod Identity
pub mod Lookup
pub mod Found

unfoldable pub same_upstream : ProxyConfig → ProxyConfig → Bool
unfolding option_eq
same_upstream a b =
    ((own a).port == (own b).port)
    && ((discriminant (own a).protocol == discriminant (own b).protocol)
        && (((own a).gate_level == (own b).gate_level)
            && (bytes_eq (own a).host (own b).host
                && (option_eq (own a).user (own b).user
                    && option_eq (own a).password (own b).password))))

-- The tuple that `upstream_hash` hands to the hasher.
abbrev pub Identity : Type 0
Identity = Bytes × ℕ × ℕ × Option Bytes × Option Bytes × ℕ

abbrev pub identity : ProxyConfig → Identity
identity p = (
  (own p).host,
  (own p).port,
  discriminant (own p).protocol,
  (own p).user,
  (own p).password,
  (own p).gate_level,
)

-- `HashMap<u64, Vec<usize>>`.
abbrev pub Buckets : Type 0
Buckets = List (ℕ × List ℕ)

unfoldable pub bucket : ℕ → Buckets → Option (List ℕ)
bucket h [] = none
bucket h ((k, slots) ∷ bs) = if h == k then some slots else bucket h bs

-- `entry(h).or_default()` and then `push`.
unfoldable pub push : ℕ → ℕ → Buckets → Buckets
push h slot [] = (h, slot ∷ []) ∷ []
push h slot ((k, slots) ∷ bs) =
    if h == k then (k, slots ++ slot ∷ []) ∷ bs else (k, slots) ∷ push h slot bs

abbrev pub slots_of : Option (List ℕ) → List ℕ
slots_of none = []
slots_of (some slots) = slots

-- `same_upstream(p, &proxies[slot])`; the slots of the table are all in range.
abbrev pub is_at : ProxyConfig → List ProxyConfig → ℕ → Bool
is_at p proxies slot = elim (get_elem? proxies slot) [ none ↦ false | some q ↦ same_upstream p q ]

-- `slots.iter().copied().find(|slot| same_upstream(p, &proxies[*slot]))`.
unfoldable pub find_slot : ProxyConfig → List ProxyConfig → List ℕ → Option ℕ
find_slot p proxies [] = none
find_slot p proxies (i ∷ slots) = if is_at p proxies i then some i else find_slot p proxies slots

abbrev pub is_some {ℓ} : {A : Type ℓ} → Option A → Bool
is_some none = false
is_some (some a) = true

module _ (hash_one : Identity → ℕ) where
  unfoldable pub upstream_hash : ProxyConfig → ℕ
  upstream_hash p = hash_one (identity p)

  -- `bucket.push(unique.len()); unique.push(proxy)`, unless a slot of the bucket has the upstream.
  unfoldable pub add_upstream :
      List ProxyConfig × Buckets → ProxyConfig → List ProxyConfig × Buckets
  unfolding upstream_hash bucket push find_slot
  add_upstream (unique, by_identity) p =
      let h = upstream_hash p in
      if is_some (find_slot p unique (slots_of (bucket h by_identity)))
      then (unique, by_identity)
      else (unique ++ p ∷ [], push h (length unique) by_identity)

  -- The loop of `try_with_quarantine`.
  unfoldable pub add_upstreams :
      List ProxyConfig × Buckets → List ProxyConfig → List ProxyConfig × Buckets
  unfolding add_upstream
  add_upstreams table [] = table
  add_upstreams table (p ∷ ps) = add_upstreams (add_upstream table p) ps

  unfoldable pub index_in : List ProxyConfig × Buckets → ProxyConfig → Option ℕ
  unfolding upstream_hash bucket find_slot
  index_in (proxies, by_identity) p = elim (bucket (upstream_hash p) by_identity) [
    | none ↦ none
    | some slots ↦ find_slot p proxies slots
  ]
