-- ===== src/Rotator/Upstreams/History.antt =====
-- `ProxyRotator`: every sequence of calls on a rotator that was built.
use resocks.Base.{
  get_elem?-below, ℕ, ◌≤◌, ◌<◌, ◌≡◌, subst, inl, inr, Option, none, some, List, [], ◌∷◌, length,
  get_elem?-total, arith, Bool-cases, Option-cases, ◌==◌,
}
use resocks.Base.Words.{u32_max}
use resocks.Error.{ConnectError}
use resocks.Proxy.{ProxyConfig}
use resocks.Rating.Float.{Float}
use resocks.Rating.Policy.{RatingPolicy}
use resocks.Rating.Quarantine.{QuarantinePolicy}
use resocks.Rating.Ratings.History.{try_with_quarantine-IsSound}
use resocks.Rating.Ratings
use resocks.Rating.Ratings.{
  Ratings, take_probes_at, probes_from, pick_order_at, on_hard_failure_at, on_success, eligible,
}
use resocks.Rotator.Slots.Lookup.{add_upstreams-IsTable, empty-IsTable, add_upstreams-Holds}
use resocks.Rotator.Slots.{Identity, add_upstreams}
use resocks.Rotator.Sticky.Mirror.{remove-IsMirror, insert-IsMirror, new-IsMirror}
use resocks.Rotator.Sticky.{StickyCache}
use resocks.Rotator.Sticky
use resocks.Rotator.Upstreams.{
  Construction, built, empty, invalid_policy, UpstreamHealth, try_with_quarantine, link_proxy,
  unlink_proxy, get_linked, get_next, record_failure, record_hard_failure, record_success,
  quarantine_now, record_error, take_probes, pick_order, restore_one,
}
use resocks.Rust.Text.{Bytes}
use resocks.Rotator.Upstreams.Whole.{
  Rotator, rotator_of, rotator_of_pair, IsWhole, Keeps, with_sticky-IsWhole, get_linked-IsWhole,
  get_next-Keeps, record_failure-IsWhole, record_hard_failure-Keeps, record_success-Keeps,
  quarantine_now-IsWhole, restore_one-IsWhole, record_error-Keeps, take_probes-Keeps,
  pick_order-Keeps,
}

pub data Operation : Type 0 where
  link : Bytes → ProxyConfig → Operation
  unlink linked : Bytes → Operation
  next probe pick : Operation
  failed failed_hard succeeded quarantined : ProxyConfig → Operation
  error : ProxyConfig → ConnectError → Operation
  restored : UpstreamHealth → Operation

module _ (f : Float) (instant_max : ℕ) (hash_one : Identity → ℕ) where
  -- The rotator after one call at an instant; `none` is a panic.
  abbrev pub after :
      Rotator f instant_max hash_one → ℕ × Operation → Option (Rotator f instant_max hash_one)
  after r (now, link addr p) = some (link_proxy f instant_max hash_one r addr p now)
  after r (now, unlink addr) = some (unlink_proxy f instant_max hash_one r addr)
  after r (now, linked addr) = some (get_linked f instant_max hash_one r addr now).0
  after r (now, next) = rotator_of f instant_max hash_one (get_next f instant_max hash_one r)
  after r (now, probe) =
      rotator_of_pair f instant_max hash_one (take_probes f instant_max hash_one r now)
  after r (now, pick) =
      rotator_of_pair f instant_max hash_one (pick_order f instant_max hash_one r now)
  after r (now, failed p) = some (record_failure f instant_max hash_one r p now)
  after r (now, failed_hard p) =
      rotator_of_pair f instant_max hash_one (record_hard_failure f instant_max hash_one r p now)
  after r (now, succeeded p) = record_success f instant_max hash_one r p now
  after r (now, quarantined p) = some (quarantine_now f instant_max hash_one r p now).0
  after r (now, error p err) =
      rotator_of_pair f instant_max hash_one (record_error f instant_max hash_one r p err now)
  after r (now, restored entry) = some (restore_one f instant_max hash_one r entry now).0

  after-IsWhole :
      (r : Rotator f instant_max hash_one) (op : ℕ × Operation)
      → IsWhole f instant_max hash_one r
      → Keeps f instant_max hash_one (after r op)
  unfolding link_proxy unlink_proxy
  after-IsWhole r (now, link addr p) w =
      with_sticky-IsWhole f instant_max hash_one r _ w
        (insert-IsMirror instant_max r.sticky addr p now w.mirror)
  after-IsWhole r (now, unlink addr) w =
      with_sticky-IsWhole f instant_max hash_one r _ w (remove-IsMirror r.sticky addr w.mirror)
  after-IsWhole r (now, linked addr) w = get_linked-IsWhole f instant_max hash_one r addr now w
  after-IsWhole r (now, next) w = get_next-Keeps f instant_max hash_one r w
  after-IsWhole r (now, probe) w = take_probes-Keeps f instant_max hash_one r now w
  after-IsWhole r (now, pick) w = pick_order-Keeps f instant_max hash_one r now w
  after-IsWhole r (now, failed p) w = record_failure-IsWhole f instant_max hash_one r p now w
  after-IsWhole r (now, failed_hard p) w =
      record_hard_failure-Keeps f instant_max hash_one r p now w
  after-IsWhole r (now, succeeded p) w = record_success-Keeps f instant_max hash_one r p now w
  after-IsWhole r (now, quarantined p) w = quarantine_now-IsWhole f instant_max hash_one r p now w
  after-IsWhole r (now, error p err) w = record_error-Keeps f instant_max hash_one r p err now w
  after-IsWhole r (now, restored entry) w = restore_one-IsWhole f instant_max hash_one r entry now w

  abbrev pub run :
      Rotator f instant_max hash_one
      → List (ℕ × Operation)
      → Option (Rotator f instant_max hash_one)
  run r [] = some r
  run r (op ∷ ops) = elim (after r op) [ none ↦ none | some r' ↦ run r' ops ]

  run-Keeps :
      (ops : List (ℕ × Operation)) (r : Rotator f instant_max hash_one)
      → IsWhole f instant_max hash_one r
      → Keeps f instant_max hash_one (run r ops)
  run-Keeps [] r w = w
  run-Keeps (op ∷ ops) r w = elim (Option-cases (after r op)) [
    | inl panics ↦ absurd (rw panics at (after-IsWhole r op w))
    | inr (r', e) ↦ rw (e, run) (run-Keeps ops r' (rw e at (after-IsWhole r op w)))
  ]

  module _ (proxies : List ProxyConfig) (max_entries ttl : ℕ) where
    abbrev fresh : Ratings f instant_max → Rotator f instant_max hash_one
    fresh ratings = record {
      proxies = (add_upstreams hash_one ([], []) proxies).0;
      by_identity = (add_upstreams hash_one ([], []) proxies).1;
      index = 0;
      sticky = Sticky.new max_entries ttl;
      ratings = ratings;
    }

    some_slot : 0 < length proxies → 0 < length (add_upstreams hash_one ([], []) proxies).0
    some_slot some_proxy =
        let (p, here) = get_elem?-total proxies 0 some_proxy in
        let (i, (q, there, _)) =
          add_upstreams-Holds hash_one [] [] proxies 0 p (empty-IsTable hash_one) here in
        omega (arith, get_elem?-below (add_upstreams hash_one ([], []) proxies).0 i q there)

    fresh-IsWhole :
        (policy : RatingPolicy f) (p : QuarantinePolicy) (now seed : ℕ)
        (ratings : Ratings f instant_max)
        → p.threshold ≤ u32_max
        → 0 < length proxies
        → Ratings.try_with_quarantine f instant_max
            (length (add_upstreams hash_one ([], []) proxies).0)
            policy
            p
            now
            seed
          ≡ some ratings
        → IsWhole f instant_max hash_one (fresh ratings)
    fresh-IsWhole policy p now seed ratings t some_proxy made = record {
      table = add_upstreams-IsTable hash_one [] [] proxies (empty-IsTable hash_one);
      some_upstream = some_slot some_proxy;
      sound = try_with_quarantine-IsSound f instant_max _ policy p now seed ratings t made;
      mirror = new-IsMirror max_entries ttl;
    }

    pub try_with_quarantine-IsWhole :
        (policy : RatingPolicy f) (p : QuarantinePolicy) (now seed : ℕ)
        (r : Rotator f instant_max hash_one)
        → p.threshold ≤ u32_max
        → try_with_quarantine f instant_max hash_one proxies policy p max_entries ttl now seed
          ≡ built r
        → IsWhole f instant_max hash_one r
    unfolding try_with_quarantine
    try_with_quarantine-IsWhole policy p now seed r t e =
        let slots = length (add_upstreams hash_one ([], []) proxies).0 in
        elim (Bool-cases (length proxies == 0)) [
          | inl no_proxy ↦
              let bad : ◌≡◌ {A = Construction f instant_max hash_one} empty (built r) =
                rw no_proxy at e in
              cc
          | inr some_proxy ↦
              elim (Option-cases
                (Ratings.try_with_quarantine f instant_max slots policy p now seed)) [
                  | inl invalid ↦
                      let bad : ◌≡◌ {A = Construction f instant_max hash_one} invalid_policy
                          (built r) =
                        rw (some_proxy, invalid, try_with_quarantine) at e in
                      cc
                  | inr (ratings, made) ↦
                      let same : built (fresh ratings) ≡ built r =
                        rw (some_proxy, made, try_with_quarantine) at e in
                      let is_r : fresh ratings ≡ r = cc in
                      subst (IsWhole f instant_max hash_one) is_r
                        (fresh-IsWhole policy p now seed ratings t (ground arith) made)
                ]
        ]

    -- A rotator that was built never panics, whatever is called on it, in any order and at any
    -- instants: afterwards every upstream still has its slot, its sand and a consistent quarantine
    -- cell, and the sticky cache's indices hold what its map does. The threshold is a `u32`.
    pub run-IsWhole :
        (policy : RatingPolicy f) (p : QuarantinePolicy) (now seed : ℕ)
        (r : Rotator f instant_max hash_one) (ops : List (ℕ × Operation))
        → p.threshold ≤ u32_max
        → try_with_quarantine f instant_max hash_one proxies policy p max_entries ttl now seed
          ≡ built r
        → Keeps f instant_max hash_one (run r ops)
    run-IsWhole policy p now seed r ops t e =
        run-Keeps ops r (try_with_quarantine-IsWhole policy p now seed r t e)
