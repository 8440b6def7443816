-- ===== src/Rating/Ratings/Probes.antt =====
-- mod.rs, `take_probes_at`: the cells after it, and the indices that are handed out for a probe.
use resocks.Base.{
  ℕ, suc, ◌≤◌, ◌<◌, ◌≡◌, refl, ap, Bool, true, false, ◌||◌, List, [], ◌∷◌, length, All, arith, ◌==◌,
}
use resocks.Base.Words.{u32_max}
use resocks.Rating.Float.{Float}
use resocks.Rating.Quarantine.History.{IsConsistent, leases, after-IsConsistent}
use resocks.Rating.Quarantine.{Cell, QuarantinePolicy, try_lease}
use resocks.Rating.Quarantine
use resocks.Rating.Ratings.{Ratings, take_probes_at, probes_from}

-- Membership as a test.
abbrev pub holds : List ℕ → ℕ → Bool
holds [] i = false
holds (j ∷ js) i = j == i || holds js i

module _ (f : Float) (instant_max : ℕ) where
  pub length-probes_from :
      (p : QuarantinePolicy) (now i : ℕ) (cs : List Cell)
      → length (probes_from f instant_max p now i cs).0 ≡ length cs
  unfolding probes_from
  length-probes_from p now i [] = refl
  length-probes_from p now i (c ∷ cs) = ap suc (length-probes_from p now (suc i) cs)

  pub probes_from-All :
      (p : QuarantinePolicy) (now i : ℕ) (cs : List Cell)
      → p.threshold ≤ u32_max
      → 0 < p.threshold
      → All (IsConsistent p) cs
      → All (IsConsistent p) (probes_from f instant_max p now i cs).0
  unfolding probes_from
  probes_from-All p now i [] t h all = tt
  probes_from-All p now i (c ∷ cs) t h all = (
    after-IsConsistent instant_max p t c (now, leases) h all.0,
    probes_from-All p now (suc i) cs t h all.1,
  )

  -- Only indices from `i` on are handed out.
  pub probes_from-below :
      (p : QuarantinePolicy) (now i : ℕ) (cs : List Cell) (j : ℕ)
      → j < i
      → holds (probes_from f instant_max p now i cs).1 j ≡ false
  unfolding probes_from
  probes_from-below p now i [] j h = refl
  probes_from-below p now i (c ∷ cs) j h =
      ground (arith, probes_from-below p now (suc i) cs j (omega arith))

  pub take_probes_on :
      (r : Ratings f instant_max) (now : ℕ)
      → Quarantine.enabled r.quarantine ≡ true
      → take_probes_at f instant_max r now ≡ (
        record r { states = (probes_from f instant_max r.quarantine now 0 r.states).0 },
        (probes_from f instant_max r.quarantine now 0 r.states).1,
      )
  unfolding take_probes_at
  take_probes_on r now on = rw on

  pub take_probes_off :
      (r : Ratings f instant_max) (now : ℕ)
      → Quarantine.enabled r.quarantine ≡ false
      → take_probes_at f instant_max r now ≡ (r, [])
  unfolding take_probes_at
  take_probes_off r now off = rw off
