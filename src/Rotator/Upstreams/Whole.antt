-- ===== src/Rotator/Upstreams/Whole.antt =====
-- `ProxyRotator`: no call panics or breaks what ties its parts together.
use mathlib.Core.List.Perm
use native.Mathlib.Nat.{mod-lt}
use resocks.Base.{
  ℕ, ◌%◌, ◌<◌, ◌≡◌, sym, subst, ◌∙◌, inl, inr, false, Option, none, some, length, get_elem?-total,
  arith, Bool-cases, Option-cases, ◌==◌,
}
use resocks.Error.{ConnectError, is_upstream_down, counts_against_upstream}
use resocks.Proxy.{ProxyConfig}
use resocks.Rating.Float.{Float}
use resocks.Rating.Ratings.Eligible.{AllBelow, eligible-AllBelow, pick_order_at-perm}
use resocks.Rating.Ratings.History.{
  after-Keeps, failure, hard_failure, quarantine, success, order, probes, restore,
}
use resocks.Rating.Ratings.Invariant.{IsSound}
use resocks.Rating.Ratings.{Ratings, take_probes_at, on_hard_failure_at, on_success}
use resocks.Rotator.Slots.Lookup.{IsTable}
use resocks.Rotator.Slots.{Identity}
use resocks.Rotator.Sticky.Mirror.{IsMirror, get-IsMirror}
use resocks.Rotator.Sticky.{StickyCache}
use resocks.Rotator.Sticky
use resocks.Rotator.Upstreams.{
  ProxyRotator, UpstreamHealth, index_of, is_quarantined, get_linked, get_next, record_failure,
  record_hard_failure, record_success, quarantine_now, record_error, take_probes, pick_order,
  restore_one,
}
use resocks.Rust.Text.{Bytes}
use resocks.Rotator.Upstreams.Chosen.{select_proxies-some, take_probes_at-AllBelow}

module _ (f : Float) (instant_max : ℕ) where
  module _ (hash_one : Identity → ℕ) where
    abbrev pub Rotator : Type 0
    Rotator = ProxyRotator f instant_max hash_one

    abbrev pub rotator_of_pair : {B : Type 0} → Option (Rotator × B) → Option Rotator
    rotator_of_pair none = none
    rotator_of_pair (some (r, _)) = some r

    -- `get_next` gave a proxy.
    abbrev pub rotator_of : Rotator × Option ProxyConfig → Option Rotator
    rotator_of (r, none) = none
    rotator_of (r, some p) = some r

    -- The slots are found by their hashes, each upstream has its sand and its cell, and the sticky
    -- cache's indices hold what its map does.
    pub record IsWhole (r : Rotator) : Type 0 where
      pub table : IsTable hash_one r.proxies r.by_identity
      pub some_upstream : 0 < length r.proxies
      pub sound : IsSound f instant_max (length r.proxies) r.ratings
      pub mirror : IsMirror r.sticky

    abbrev pub Keeps : Option Rotator → Type 0
    Keeps none = ⊥
    Keeps (some r) = IsWhole r

    pub with_ratings-IsWhole :
        (r : Rotator) (ratings : Ratings f instant_max)
        → IsWhole r
        → IsSound f instant_max (length r.proxies) ratings
        → IsWhole (record r { ratings = ratings })
    with_ratings-IsWhole r ratings w s = record {
      table = w.table;
      some_upstream = w.some_upstream;
      sound = s;
      mirror = w.mirror;
    }

    pub with_sticky-IsWhole :
        (r : Rotator) (sticky : StickyCache)
        → IsWhole r
        → IsMirror sticky
        → IsWhole (record r { sticky = sticky })
    with_sticky-IsWhole r sticky w m = record {
      table = w.table;
      some_upstream = w.some_upstream;
      sound = w.sound;
      mirror = m;
    }

    pub get_linked-IsWhole :
        (r : Rotator) (addr : Bytes) (now : ℕ)
        → IsWhole r
        → IsWhole (get_linked f instant_max hash_one r addr now).0
    unfolding get_linked
    get_linked-IsWhole r addr now w =
        let r' : Rotator = record r { sticky = (Sticky.get r.sticky addr now).0 } in
        let w' : IsWhole r' =
          with_sticky-IsWhole r r'.sticky w (get-IsMirror r.sticky addr now w.mirror) in
        elim (Option-cases (Sticky.get r.sticky addr now).1) [
          | inl nothing ↦ rw (nothing, get_linked) w'
          | inr (p, there) ↦ elim (Bool-cases (is_quarantined f instant_max hash_one r p)) [
            | inl out ↦ rw (there, out, get_linked) w'
            | inr fine ↦ rw (there, fine, get_linked) w'
          ]
        ]

    pub get_next-Keeps :
        (r : Rotator) → IsWhole r → Keeps (rotator_of (get_next f instant_max hash_one r))
    unfolding get_next
    get_next-Keeps r w =
        let some_upstream = w.some_upstream in
        let filled : (length r.proxies == 0) ≡ false = ground arith in
        let (p, there) =
          get_elem?-total r.proxies (r.index % length r.proxies) (mod-lt r.index some_upstream) in
        rw (filled, there)
          (record {
            table = w.table;
            some_upstream = w.some_upstream;
            sound = w.sound;
            mirror = w.mirror;
          })

    pub record_failure-IsWhole :
        (r : Rotator) (p : ProxyConfig) (now : ℕ)
        → IsWhole r
        → IsWhole (record_failure f instant_max hash_one r p now)
    unfolding record_failure
    record_failure-IsWhole r p now w = elim (Option-cases (index_of f instant_max hash_one r p)) [
      | inl unknown ↦ rw (unknown, record_failure) w
      | inr (i, known) ↦
          rw (known, record_failure)
            (with_ratings-IsWhole r _ w (
              after-Keeps f instant_max (length r.proxies) r.ratings (now, failure i)
                w.some_upstream w.sound))
    ]

    pub record_hard_failure-Keeps :
        (r : Rotator) (p : ProxyConfig) (now : ℕ)
        → IsWhole r
        → Keeps (rotator_of_pair (record_hard_failure f instant_max hash_one r p now))
    unfolding record_hard_failure
    record_hard_failure-Keeps r p now w =
        elim (Option-cases (index_of f instant_max hash_one r p)) [
          | inl unknown ↦ rw (unknown, record_hard_failure) w
          | inr (i, known) ↦
              let kept =
                after-Keeps f instant_max (length r.proxies) r.ratings (now, hard_failure i)
                  w.some_upstream w.sound in
              elim (Option-cases (on_hard_failure_at f instant_max r.ratings i now)) [
                | inl panics ↦ absurd (rw panics at kept)
                | inr ((ratings, length'), done) ↦
                    rw (known, done, record_hard_failure)
                      (with_ratings-IsWhole r ratings w (rw done at kept))
              ]
        ]

    pub record_success-Keeps :
        (r : Rotator) (p : ProxyConfig) (now : ℕ)
        → IsWhole r
        → Keeps (record_success f instant_max hash_one r p now)
    unfolding record_success
    record_success-Keeps r p now w = elim (Option-cases (index_of f instant_max hash_one r p)) [
      | inl unknown ↦ rw (unknown, record_success) w
      | inr (i, known) ↦
          let kept =
            after-Keeps f instant_max (length r.proxies) r.ratings (now, success i) w.some_upstream
              w.sound in
          elim (Option-cases (on_success f instant_max r.ratings i now)) [
            | inl panics ↦ absurd (rw panics at kept)
            | inr (ratings, done) ↦
                rw (known, done, record_success)
                  (with_ratings-IsWhole r ratings w (rw done at kept))
          ]
    ]

    pub quarantine_now-IsWhole :
        (r : Rotator) (p : ProxyConfig) (now : ℕ)
        → IsWhole r
        → IsWhole (quarantine_now f instant_max hash_one r p now).0
    unfolding quarantine_now
    quarantine_now-IsWhole r p now w = elim (Option-cases (index_of f instant_max hash_one r p)) [
      | inl unknown ↦ rw (unknown, quarantine_now) w
      | inr (i, known) ↦
          rw (known, quarantine_now)
            (with_ratings-IsWhole r _ w (
              after-Keeps f instant_max (length r.proxies) r.ratings (now, quarantine i)
                w.some_upstream w.sound))
    ]

    pub restore_one-IsWhole :
        (r : Rotator) (entry : UpstreamHealth) (now : ℕ)
        → IsWhole r
        → IsWhole (restore_one f instant_max hash_one r entry now).0
    unfolding restore_one
    restore_one-IsWhole r entry now w =
        elim (Option-cases (index_of f instant_max hash_one r entry.proxy)) [
          | inl unknown ↦ rw (unknown, restore_one) w
          | inr (i, known) ↦
              rw (known, restore_one)
                (with_ratings-IsWhole r _ w (
                  after-Keeps f instant_max (length r.proxies) r.ratings
                    (now, restore i entry.health) w.some_upstream w.sound))
        ]

    pub record_error-Keeps :
        (r : Rotator) (p : ProxyConfig) (err : ConnectError) (now : ℕ)
        → IsWhole r
        → Keeps (rotator_of_pair (record_error f instant_max hash_one r p err now))
    unfolding record_error
    record_error-Keeps r p err now w = elim (Bool-cases (counts_against_upstream err)) [
      | inr not_counted ↦ rw not_counted w
      | inl counted ↦ elim (Bool-cases (is_upstream_down err)) [
        | inl down ↦ rw (counted, down) (record_hard_failure-Keeps r p now w)
        | inr up ↦ rw (counted, up) (record_failure-IsWhole r p now w)
      ]
    ]

    pub take_probes-Keeps :
        (r : Rotator) (now : ℕ)
        → IsWhole r
        → Keeps (rotator_of_pair (take_probes f instant_max hash_one r now))
    unfolding take_probes
    take_probes-Keeps r now w =
        let sound =
          after-Keeps f instant_max (length r.proxies) r.ratings (now, probes) w.some_upstream
            w.sound in
        let (ps, chosen) =
          select_proxies-some r.proxies (take_probes_at f instant_max r.ratings now).1
            (rw w.sound.one_state_each at (take_probes_at-AllBelow f instant_max r.ratings now)) in
        rw chosen (with_ratings-IsWhole r _ w sound)

    pub pick_order-Keeps :
        (r : Rotator) (now : ℕ)
        → IsWhole r
        → Keeps (rotator_of_pair (pick_order f instant_max hash_one r now))
    unfolding pick_order
    pick_order-Keeps r now w =
        let sound =
          after-Keeps f instant_max (length r.proxies) r.ratings (now, order) w.some_upstream
            w.sound in
        let shaped = w.sound.one_sand_each ∙ sym w.sound.one_state_each in
        let (rng, order', picked, perm) = pick_order_at-perm f instant_max r.ratings now shaped in
        let below : AllBelow (length r.proxies) order' =
          subst (λ n. AllBelow n order') w.sound.one_sand_each
            (λ j m.
              eligible-AllBelow f instant_max r.ratings now shaped j (Perm.subset perm j m)) in
        let (ps, chosen) = select_proxies-some r.proxies order' below in
        rw (picked, pick_order, chosen) (with_ratings-IsWhole r _ w (rw picked at sound))
