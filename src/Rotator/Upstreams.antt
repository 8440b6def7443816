-- ===== src/Rotator/Upstreams.antt =====
-- crates/resocks5-net/src/session/rotator/mod.rs and record_error.rs: `ProxyRotator`. Every method
-- takes the instant that it reads from the clock; `none` is a panic. The table of slots and the
-- round-robin counter are read and written without the two locks, each of which is taken once.
use resocks.Base.{
  ℕ, zero, suc, ◌+◌, ◌%◌, ◌^◌, Bool, true, false, not, ◌&&◌, Option, none, some, List, [], ◌∷◌,
  length, get_elem?, ◌==◌, if◌then◌else◌,
}
use resocks.Error.{ConnectError, is_upstream_down, counts_against_upstream}
use resocks.Proxy.{ProxyConfig}
use resocks.Rating.Float.{Float}
use resocks.Rating.Policy.{RatingPolicy}
use resocks.Rating.Quarantine.{QuarantinePolicy}
use resocks.Rating.Ratings.{
  Ratings, Health, on_failure, on_hard_failure_at, on_success, pick_order_at, take_probes_at,
  restore_health_at, health_at,
}
use resocks.Rating.Ratings
use resocks.Rotator.Slots.{Identity, Buckets, add_upstreams, index_in}
use resocks.Rotator.Sticky.{StickyCache}
use resocks.Rotator.Sticky
use resocks.Rust.Text.{Bytes}
pub mod Chosen
pub mod History
pub mod Linked
pub mod Whole

pub record UpstreamHealth : Type 0 where
  pub proxy : ProxyConfig
  pub health : Health

-- `proxies[i]` for each index; `none` is a panic.
pub select_proxies : List ProxyConfig → List ℕ → Option (List ProxyConfig)
select_proxies proxies [] = some []
select_proxies proxies (i ∷ is) = elim (get_elem? proxies i) [
  | none ↦ none
  | some p ↦ elim (select_proxies proxies is) [ none ↦ none | some ps ↦ some (p ∷ ps) ]
]

abbrev zip_health : List ProxyConfig → List Health → List UpstreamHealth
zip_health (p ∷ ps) (h ∷ hs) = record { proxy = p; health = h } ∷ zip_health ps hs
zip_health _ _ = []

module _ (f : Float) (instant_max : ℕ) (hash_one : Identity → ℕ) where
  pub record ProxyRotator : Type 0 where
    pub proxies : List ProxyConfig
    pub by_identity : Buckets
    pub index : ℕ
    pub sticky : StickyCache
    pub ratings : Ratings f instant_max

  pub data Construction : Type 0 where
    built : ProxyRotator → Construction
    empty invalid_policy : Construction

  -- With the seed that `SmallRng::from_os` gives.
  unfoldable pub try_with_quarantine :
      List ProxyConfig → RatingPolicy f → QuarantinePolicy → ℕ → ℕ → ℕ → ℕ → Construction
  try_with_quarantine proxies policy quarantine max_entries ttl now seed =
      let (unique, by_identity) = add_upstreams hash_one ([], []) proxies in
      if length proxies == 0
      then empty
      else elim (Ratings.try_with_quarantine f instant_max (length unique) policy quarantine now
          seed) [
            | none ↦ invalid_policy
            | some ratings ↦ built (record {
              proxies = unique;
              by_identity = by_identity;
              index = 0;
              sticky = Sticky.new max_entries ttl;
              ratings = ratings;
            })
          ]

  unfoldable pub index_of : ProxyRotator → ProxyConfig → Option ℕ
  index_of r p = index_in hash_one (r.proxies, r.by_identity) p

  unfoldable pub is_quarantined : ProxyRotator → ProxyConfig → Bool
  unfolding index_of
  is_quarantined r p = elim (index_of r p) [
    | none ↦ false
    | some i ↦ Ratings.is_quarantined f instant_max r.ratings i
  ]

  unfoldable pub link_proxy : ProxyRotator → Bytes → ProxyConfig → ℕ → ProxyRotator
  link_proxy r addr proxy now = record r {
    sticky = Sticky.insert instant_max r.sticky addr proxy now;
  }

  unfoldable pub unlink_proxy : ProxyRotator → Bytes → ProxyRotator
  unlink_proxy r addr = record r { sticky = (Sticky.remove r.sticky addr).0 }

  unfoldable pub get_linked : ProxyRotator → Bytes → ℕ → ProxyRotator × Option ProxyConfig
  unfolding is_quarantined
  get_linked r addr now =
      let (sticky', linked) = Sticky.get r.sticky addr now in
      let r' : ProxyRotator = record r { sticky = sticky' } in
      elim linked [
        | none ↦ (r', none)
        | some p ↦ if is_quarantined r p then (r', none) else (r', some p)
      ]

  -- `fetch_add(1, Relaxed) % proxies.len()`, which panics on an empty list.
  unfoldable pub get_next : ProxyRotator → ProxyRotator × Option ProxyConfig
  get_next r =
      let next = get_elem? r.proxies (r.index % length r.proxies) in
      (record r { index = (r.index + 1) % 2 ^ 64 }, if length r.proxies == 0 then none else next)

  unfoldable pub record_failure : ProxyRotator → ProxyConfig → ℕ → ProxyRotator
  unfolding index_of
  record_failure r p now = elim (index_of r p) [
    | none ↦ r
    | some i ↦ record r { ratings = on_failure f instant_max r.ratings i now }
  ]

  abbrev with_ratings :
      {B : Type 0} → ProxyRotator → Option (Ratings f instant_max × B) → Option (ProxyRotator × B)
  with_ratings r none = none
  with_ratings r (some (ratings, b)) = some (record r { ratings = ratings }, b)

  unfoldable pub record_hard_failure :
      ProxyRotator → ProxyConfig → ℕ → Option (ProxyRotator × Option ℕ)
  unfolding index_of
  record_hard_failure r p now = elim (index_of r p) [
    | none ↦ some (r, none)
    | some i ↦ with_ratings r (on_hard_failure_at f instant_max r.ratings i now)
  ]

  unfoldable pub record_success : ProxyRotator → ProxyConfig → ℕ → Option ProxyRotator
  unfolding index_of
  record_success r p now = elim (index_of r p) [
    | none ↦ some r
    | some i ↦ elim (on_success f instant_max r.ratings i now) [
      | none ↦ none
      | some ratings ↦ some (record r { ratings = ratings })
    ]
  ]

  unfoldable pub quarantine_now : ProxyRotator → ProxyConfig → ℕ → ProxyRotator × Option ℕ
  unfolding index_of
  quarantine_now r p now = elim (index_of r p) [
    | none ↦ (r, none)
    | some i ↦
        let (ratings, length) = Ratings.quarantine_now f instant_max r.ratings i now in
        (record r { ratings = ratings }, length)
  ]

  unfoldable pub record_error :
      ProxyRotator → ProxyConfig → ConnectError → ℕ → Option (ProxyRotator × Option ℕ)
  unfolding record_failure record_hard_failure
  record_error r p err now =
      if not (counts_against_upstream err)
      then some (r, none)
      else if is_upstream_down err
      then record_hard_failure r p now
      else some (record_failure r p now, none)

  abbrev with_proxies :
      ProxyRotator → Option (List ProxyConfig) → Option (ProxyRotator × List ProxyConfig)
  with_proxies r none = none
  with_proxies r (some ps) = some (r, ps)

  unfoldable pub take_probes : ProxyRotator → ℕ → Option (ProxyRotator × List ProxyConfig)
  unfolding select_proxies
  take_probes r now =
      let (ratings, probes) = take_probes_at f instant_max r.ratings now in
      with_proxies (record r { ratings = ratings }) (select_proxies r.proxies probes)

  unfoldable pub pick_order : ProxyRotator → ℕ → Option (ProxyRotator × List ProxyConfig)
  unfolding select_proxies
  pick_order r now = elim (pick_order_at f instant_max r.ratings now) [
    | none ↦ none
    | some (ratings, order) ↦
        with_proxies (record r { ratings = ratings }) (select_proxies r.proxies order)
  ]

  unfoldable pub health : ProxyRotator → ℕ → List UpstreamHealth
  health r now = zip_health r.proxies (health_at f instant_max r.ratings now)

  -- The entry of one saved record, and whether it went back into quarantine.
  unfoldable pub restore_one : ProxyRotator → UpstreamHealth → ℕ → ProxyRotator × Bool
  unfolding index_of
  restore_one r entry now = elim (index_of r entry.proxy) [
    | none ↦ (r, false)
    | some i ↦
        let (ratings, restored) = restore_health_at f instant_max r.ratings i entry.health now in
        (record r { ratings = ratings }, restored)
  ]

  -- `entries.iter().filter(..).count()`, each entry at its own instant.
  unfoldable pub restore_health : ProxyRotator → List (ℕ × UpstreamHealth) → ProxyRotator × ℕ
  unfolding restore_one
  restore_health r [] = (r, 0)
  restore_health r ((now, entry) ∷ entries) =
      let (r', restored) = restore_one r entry now in
      let (r2, count) = restore_health r' entries in (r2, if restored then count + 1 else count)
