-- ===== src/Rating/Ratings/Leases.antt =====
-- mod.rs, `take_probes_at`: the lease of a probe, under the operations that run while it holds.
use resocks.Base.{
  ℕ, zero, suc, ◌+◌, ◌≤◌, ◌<◌, ◌≡◌, ◌≢◌, refl, sym, subst, ◌∙◌, inl, inr, true, false, Option, none,
  some, List, [], ◌∷◌, get_elem?, All, Bool-cases, Option-cases, arith,
}
use resocks.Rating.Float.{Float}
use resocks.Rating.Quarantine.{Cell, QuarantinePolicy, try_lease, lease_held}
use resocks.Rating.Quarantine
use resocks.Rating.Ratings.History.{
  Operation, failure, hard_failure, quarantine, success, pick, order, probes, restore, after, run,
}
use resocks.Rating.Ratings.Probes.{holds, probes_from-below, take_probes_on, take_probes_off}
use resocks.Rating.Ratings.Untouched.{Spares, Same, after-Same}
use mathlib.Core.Option.{some-injective}
use resocks.Rating.Ratings.{Ratings, take_probes_at, probes_from}

module _ (f : Float) (instant_max : ℕ) where
  -- The cell at an index is there, and its lease still holds at the instant `later`.
  record Leased (cs : List Cell) (j later : ℕ) : Type 0 where
    cell : Cell
    here : get_elem? cs j ≡ some cell
    held : lease_held cell.lease_until later ≡ true

  -- A lease that holds is not granted again, and one that has ended is replaced by a later one.
  try_lease-held :
      (c : Cell) (p : QuarantinePolicy) (now later : ℕ)
      → lease_held c.lease_until later ≡ true
      → lease_held (try_lease instant_max c now p).0.lease_until later ≡ true
  unfolding try_lease
  try_lease-held c p now later h = elim (Option-cases c.lease_until) [
    | inl free ↦ cc (rw free at h)
    | inr (end, e) ↦ ground arith
  ]

  try_lease-refuses :
      (c : Cell) (p : QuarantinePolicy) (later : ℕ)
      → lease_held c.lease_until later ≡ true
      → (try_lease instant_max c later p).1 ≡ false
  unfolding try_lease
  try_lease-refuses c p later h = ground arith

  try_lease-grants :
      (c : Cell) (p : QuarantinePolicy) (now later : ℕ)
      → (try_lease instant_max c now p).1 ≡ true
      → now + p.probe_lease ≤ instant_max
      → later < now + p.probe_lease
      → lease_held (try_lease instant_max c now p).0.lease_until later ≡ true
  unfolding try_lease
  try_lease-grants c p now later h k l = ground arith

  probes_from-at :
      (p : QuarantinePolicy) (now i : ℕ) (cs : List Cell) (k : ℕ) (c : Cell)
      → get_elem? cs k ≡ some c
      → (get_elem? (probes_from f instant_max p now i cs).0 k
          ≡ some (try_lease instant_max c now p).0)
        × (holds (probes_from f instant_max p now i cs).1 (i + k)
            ≡ (try_lease instant_max c now p).1)
  unfolding probes_from
  probes_from-at p now i [] k c h = cc
  probes_from-at p now i (d ∷ cs) zero c h =
      let absent = probes_from-below f instant_max p now (suc i) cs i (omega arith) in
      let same : i + 0 ≡ i = omega arith in (ground arith, rw same (ground arith))
  probes_from-at p now i (d ∷ cs) (suc k) c h =
      let ih = probes_from-at p now (suc i) cs k c h in
      let same : i + suc k ≡ suc i + k = omega arith in (ih.0, rw same (ground (arith, ih.1)))

  probes_from-inside :
      (p : QuarantinePolicy) (now i : ℕ) (cs : List Cell) (k : ℕ)
      → holds (probes_from f instant_max p now i cs).1 (i + k) ≡ true
      → (c : Cell) × (get_elem? cs k ≡ some c)
  unfolding probes_from
  probes_from-inside p now i [] k h = cc
  probes_from-inside p now i (d ∷ cs) zero h = (d, refl)
  probes_from-inside p now i (d ∷ cs) (suc k) h =
      let same : i + suc k ≡ suc i + k = omega arith in
      probes_from-inside p now (suc i) cs k (ground arith)

  probes-Leased :
      (r : Ratings f instant_max) (now later j : ℕ)
      → Leased r.states j later
      → Leased (take_probes_at f instant_max r now).0.states j later
  probes-Leased r now later j l = elim (Bool-cases (Quarantine.enabled r.quarantine)) [
    | inr off ↦ rw (take_probes_off f instant_max r now off) l
    | inl on ↦ rw (take_probes_on f instant_max r now on) (record {
      cell = (try_lease instant_max l.cell now r.quarantine).0;
      here = (probes_from-at r.quarantine now 0 r.states j l.cell l.here).0;
      held = try_lease-held l.cell r.quarantine now later l.held;
    })
  ]

  -- The lease outlives every operation that spares its upstream, at whatever instant.
  Keeps : ℕ → ℕ → Option (Ratings f instant_max) → Type 0
  Keeps j later none = Unit {0}
  Keeps j later (some r) = Leased r.states j later

  Same-Keeps :
      (r : Ratings f instant_max) (j later : ℕ) (o : Option (Ratings f instant_max))
      → Leased r.states j later
      → Same f instant_max j r o
      → Keeps j later o
  unfolding Keeps
  Same-Keeps r j later none l e = tt
  Same-Keeps r j later (some r') l e = record { cell = l.cell; here = e ∙ l.here; held = l.held }

  untouched :
      (r : Ratings f instant_max) (op : ℕ × Operation) (j later : ℕ)
      → Leased r.states j later
      → Spares j op
      → op.1 ≢ probes
      → Keeps j later (after f instant_max r op)
  untouched r op j later l s quiet =
      Same-Keeps r j later (after f instant_max r op) l (after-Same f instant_max r op j s quiet)

  after-Leased :
      (r : Ratings f instant_max) (op : ℕ × Operation) (j later : ℕ)
      → Leased r.states j later
      → Spares j op
      → Keeps j later (after f instant_max r op)
  unfolding Keeps
  after-Leased r (now, probes) j later l s = probes-Leased r now later j l
  after-Leased r (now, failure i) j later l s = untouched r (now, failure i) j later l s (λ e. cc)
  after-Leased r (now, hard_failure i) j later l s =
      untouched r (now, hard_failure i) j later l s (λ e. cc)
  after-Leased r (now, quarantine i) j later l s =
      untouched r (now, quarantine i) j later l s (λ e. cc)
  after-Leased r (now, success i) j later l s = untouched r (now, success i) j later l s (λ e. cc)
  after-Leased r (now, pick) j later l s = untouched r (now, pick) j later l s (λ e. cc)
  after-Leased r (now, order) j later l s = untouched r (now, order) j later l s (λ e. cc)
  after-Leased r (now, restore i h) j later l s =
      untouched r (now, restore i h) j later l s (λ e. cc)

  run-Leased :
      (ops : List (ℕ × Operation)) (r r' : Ratings f instant_max) (j later : ℕ)
      → Leased r.states j later
      → All (Spares j) ops
      → run f instant_max r ops ≡ some r'
      → Leased r'.states j later
  unfolding Keeps
  run-Leased [] r r' j later l spares e =
      subst (λ t. Leased (Ratings.states t) j later) (some-injective r r' e) l
  run-Leased (op ∷ ops) r r' j later l spares e = elim (Option-cases (after f instant_max r op)) [
    | inl panics ↦ cc (rw (panics, run) at e)
    | inr (t, step) ↦
        run-Leased ops t r' j later (rw step at (after-Leased r op j later l spares.0)) spares.1
          (rw (step, run) at e)
  ]

  refused :
      (r : Ratings f instant_max) (j later : ℕ)
      → Leased r.states j later
      → holds (take_probes_at f instant_max r later).1 j ≡ false
  refused r j later l = elim (Bool-cases (Quarantine.enabled r.quarantine)) [
    | inr off ↦ rw (take_probes_off f instant_max r later off) refl
    | inl on ↦
        let same : 0 + j ≡ j = omega arith in
        let asked = (probes_from-at r.quarantine later 0 r.states j l.cell l.here).1 in
        rw (take_probes_on f instant_max r later on)
          (rw same at (asked ∙ try_lease-refuses l.cell r.quarantine later l.held))
  ]

  granted :
      (r : Ratings f instant_max) (now later j : ℕ)
      → now + r.quarantine.probe_lease ≤ instant_max
      → later < now + r.quarantine.probe_lease
      → holds (take_probes_at f instant_max r now).1 j ≡ true
      → Leased (take_probes_at f instant_max r now).0.states j later
  granted r now later j fits early h = elim (Bool-cases (Quarantine.enabled r.quarantine)) [
    | inr off ↦ cc (rw (take_probes_off f instant_max r now off) at h)
    | inl on ↦
        let same : 0 + j ≡ j = omega arith in
        let on_list = rw (take_probes_on f instant_max r now on) at h in
        let (c, here) = probes_from-inside r.quarantine now 0 r.states j (rw same on_list) in
        let (there, given) = probes_from-at r.quarantine now 0 r.states j c here in
        rw (take_probes_on f instant_max r now on) (record {
          cell = (try_lease instant_max c now r.quarantine).0;
          here = there;
          held = try_lease-grants c r.quarantine now later (sym given ∙ rw same on_list) fits early;
        })
  ]

  -- An upstream that was handed out for a probe is not handed out again before its lease ends,
  -- whatever operations run in between, none of them panicking, and at whatever instants, other
  -- calls for probes among them, as long as none of them reports an outcome for that upstream (a
  -- hard failure, an immediate quarantine, a success or a restored health). The clock represents
  -- the lease's end.
  pub take_probes_at-exclusive :
      (r r' : Ratings f instant_max) (ops : List (ℕ × Operation)) (now later j : ℕ)
      → now + r.quarantine.probe_lease ≤ instant_max
      → later < now + r.quarantine.probe_lease
      → holds (take_probes_at f instant_max r now).1 j ≡ true
      → All (Spares j) ops
      → run f instant_max (take_probes_at f instant_max r now).0 ops ≡ some r'
      → holds (take_probes_at f instant_max r' later).1 j ≡ false
  take_probes_at-exclusive r r' ops now later j fits early h spares e = refused r' j later (
      run-Leased ops (take_probes_at f instant_max r now).0 r' j later
        (granted r now later j fits early h) spares e)
