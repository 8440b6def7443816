-- ===== src/Rotator/Upstreams/Linked.antt =====
-- `ProxyRotator`: what `quarantine_now`, `record_error` and `get_next` do to the answers that follow.
use resocks.Base.{
  get_elem?-below, ℕ, zero, suc, ◌+◌, ◌%◌, ◌^◌, ◌≤◌, ◌<◌, ◌≡◌, ◌≢◌, refl, ap, subst, ◌∙◌, inl, inr,
  true, false, Option, none, some, List, [], ◌∷◌, map, length, get_elem?, get_elem?-total,
  range_from, arith, Bool-cases, Option-cases, ◌==◌,
}
use resocks.Error.{ConnectError, is_upstream_down, counts_against_upstream}
use resocks.Proxy.{ProxyConfig}
use resocks.Rating.Float.{Float}
use resocks.Rating.Quarantine
use resocks.Rating.Ratings.Tripped.{is_quarantined-quarantine_now, on_failure_states}
use resocks.Rating.Ratings
use resocks.Rotator.Slots.Identity.{same_upstream-identity, identity-same_upstream}
use resocks.Rotator.Slots.Lookup.{index_in-Holds, Holds-index_in}
use resocks.Rotator.Slots.{Identity, same_upstream}
use resocks.Rotator.Sticky
use resocks.Rotator.Upstreams.Whole.{IsWhole}
use resocks.Rotator.Upstreams.{
  ProxyRotator, index_of, is_quarantined, get_linked, get_next, record_failure, quarantine_now,
  record_error,
}
use resocks.Rust.Text.{Bytes}

module _ (f : Float) (instant_max : ℕ) (hash_one : Identity → ℕ) where
  get_linked-not_quarantined :
      (r : ProxyRotator f instant_max hash_one) (addr : Bytes) (now : ℕ) (q : ProxyConfig)
      → (get_linked f instant_max hash_one r addr now).1 ≡ some q
      → is_quarantined f instant_max hash_one r q ≡ false
  unfolding get_linked
  get_linked-not_quarantined r addr now q h = elim (Option-cases (Sticky.get r.sticky addr now).1) [
    | inl nothing ↦
        let bad : ◌≡◌ {A = Option ProxyConfig} none (some q) = rw (nothing, get_linked) at h in cc
    | inr (p, there) ↦ elim (Bool-cases (is_quarantined f instant_max hash_one r p)) [
      | inl out ↦
          let bad : ◌≡◌ {A = Option ProxyConfig} none (some q) = rw (there, out, get_linked) at h in
          cc
      | inr fine ↦
          let is_q : some p ≡ some q = rw (there, fine, get_linked) at h in
          let e : p ≡ q = cc in
          subst (λ x. is_quarantined f instant_max hash_one r x ≡ false) e fine
    ]
  ]

  index_of-same :
      (r : ProxyRotator f instant_max hash_one) (p q : ProxyConfig) (i : ℕ)
      → IsWhole f instant_max hash_one r
      → same_upstream q p ≡ true
      → index_of f instant_max hash_one r p ≡ some i
      → index_of f instant_max hash_one r q ≡ some i
  unfolding index_of
  index_of-same r p q i w same known =
      let (x, there, p_same) = index_in-Holds hash_one r.proxies r.by_identity p i known in
      let q_same =
        identity-same_upstream q x
          (same_upstream-identity q p same ∙ same_upstream-identity p x p_same) in
      Holds-index_in hash_one r.proxies r.by_identity q i w.table (x, there, q_same)

  quarantine_now-known :
      (r : ProxyRotator f instant_max hash_one) (p : ProxyConfig) (i now : ℕ)
      → index_of f instant_max hash_one r p ≡ some i
      → quarantine_now f instant_max hash_one r p now ≡ (
          let (ratings, length') = Ratings.quarantine_now f instant_max r.ratings i now in
          (record r { ratings = ratings }, length'))
  unfolding quarantine_now
  quarantine_now-known r p i now known = rw (known, quarantine_now) refl

  is_quarantined-known :
      (r : ProxyRotator f instant_max hash_one) (p : ProxyConfig) (i : ℕ)
      → index_of f instant_max hash_one r p ≡ some i
      → is_quarantined f instant_max hash_one r p ≡ Ratings.is_quarantined f instant_max r.ratings i
  unfolding is_quarantined
  is_quarantined-known r p i known = rw (known, is_quarantined) refl

  is_quarantined-quarantine_now_same :
      (r : ProxyRotator f instant_max hash_one) (p q : ProxyConfig) (i now : ℕ)
      → IsWhole f instant_max hash_one r
      → Quarantine.enabled r.ratings.quarantine ≡ true
      → index_of f instant_max hash_one r p ≡ some i
      → same_upstream q p ≡ true
      → is_quarantined f instant_max hash_one (quarantine_now f instant_max hash_one r p now).0 q
        ≡ true
  unfolding index_of
  is_quarantined-quarantine_now_same r p q i now w on known same =
      let (x, there, _) = index_in-Holds hash_one r.proxies r.by_identity p i known in
      let inside = get_elem?-below r.proxies i x there in
      let (c, here) = get_elem?-total r.ratings.states i (omega (arith, w.sound.one_state_each)) in
      let known_q = index_of-same r p q i w same known in
      let (ratings, length') = Ratings.quarantine_now f instant_max r.ratings i now in
      rw (quarantine_now-known r p i now known) (
        is_quarantined-known (record r { ratings = ratings }) q i known_q
        ∙ is_quarantined-quarantine_now f instant_max r.ratings i now c on here)

  -- After `quarantine_now` on a known upstream, with the quarantine on, the sticky cache gives that
  -- upstream to no target, under whatever gate it was linked.
  pub get_linked-quarantine_now :
      (r : ProxyRotator f instant_max hash_one) (p q : ProxyConfig) (i now later : ℕ) (addr : Bytes)
      → IsWhole f instant_max hash_one r
      → Quarantine.enabled r.ratings.quarantine ≡ true
      → index_of f instant_max hash_one r p ≡ some i
      → same_upstream q p ≡ true
      → (get_linked f instant_max hash_one
          (quarantine_now f instant_max hash_one r p now).0
          addr
          later).1
        ≢ some q
  get_linked-quarantine_now r p q i now later addr w on known same h =
      let out = is_quarantined-quarantine_now_same r p q i now w on known same in
      let free =
        get_linked-not_quarantined (quarantine_now f instant_max hash_one r p now).0 addr later q
          h in
      cc

  -- An error that does not say that the upstream is down never quarantines it: no quarantine cell
  -- changes, and no length is reported.
  pub record_error_states :
      (r : ProxyRotator f instant_max hash_one) (p : ProxyConfig) (err : ConnectError) (now : ℕ)
      → is_upstream_down err ≡ false
      → (r' : ProxyRotator f instant_max hash_one) × (record_error f instant_max hash_one r p err
            now
          ≡ some (r', none))
        × (r'.ratings.states ≡ r.ratings.states)
  unfolding record_error record_failure
  record_error_states r p err now up = elim (Bool-cases (counts_against_upstream err)) [
    | inr not_counted ↦ (r, rw not_counted refl, refl)
    | inl counted ↦ elim (Option-cases (index_of f instant_max hash_one r p)) [
      | inl unknown ↦ (r, rw (counted, up, unknown, record_failure) refl, refl)
      | inr (i, known) ↦ (
        record r { ratings = Ratings.on_failure f instant_max r.ratings i now },
        rw (counted, up, known, record_failure) refl,
        on_failure_states f instant_max r.ratings i now,
      )
    ]
  ]

  -- The proxies of so many calls of `get_next` in a row.
  abbrev pub nexts : ℕ → ProxyRotator f instant_max hash_one → List (Option ProxyConfig)
  nexts zero r = []
  nexts (suc k) r = let (r', p) = get_next f instant_max hash_one r in p ∷ nexts k r'

  nexts_step :
      (k : ℕ) (r : ProxyRotator f instant_max hash_one)
      → 0 < length r.proxies
      → nexts (suc k) r
        ≡ get_elem? r.proxies (r.index % length r.proxies)
          ∷ nexts k (record r { index = (r.index + 1) % 2 ^ 64 })
  unfolding get_next
  nexts_step k r some_upstream =
      let filled : (length r.proxies == 0) ≡ false = ground arith in rw filled refl

  -- Up to the counter's wrap-around, calls of `get_next` go round the upstreams one by one.
  pub nexts_round :
      (k : ℕ) (r : ProxyRotator f instant_max hash_one)
      → 0 < length r.proxies
      → r.index + k ≤ 2 ^ 64
      → nexts k r ≡ map (λ j. get_elem? r.proxies (j % length r.proxies)) (range_from r.index k)
  nexts_round zero r some_upstream below = refl
  nexts_round (suc zero) r some_upstream below = nexts_step 0 r some_upstream
  nexts_round (suc (suc k)) r some_upstream below =
      let step : (r.index + 1) % 2 ^ 64 ≡ suc r.index = omega arith in
      nexts_step (suc k) r some_upstream
      ∙ rw step (
          ap (◌∷◌ (get_elem? r.proxies (r.index % length r.proxies)))
            (nexts_round (suc k) (record r { index = suc r.index }) some_upstream (omega arith)))
