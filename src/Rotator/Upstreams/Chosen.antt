-- ===== src/Rotator/Upstreams/Chosen.antt =====
-- `ProxyRotator`: the indices that `take_probes` and `pick_order` read the upstreams with are in range.
use mathlib.Core.List.{mem-cons_self, mem-cons_of_mem, not-mem-nil}
use resocks.Base.{
  ℕ, suc, ◌+◌, ◌≤◌, ◌≡◌, refl, inl, inr, some, List, [], ◌∷◌, length, get_elem?-total, arith,
  Bool-cases,
}
use resocks.Proxy.{ProxyConfig}
use resocks.Rating.Float.{Float}
use resocks.Rating.Quarantine.{QuarantinePolicy, Cell, try_lease}
use resocks.Rating.Quarantine
use resocks.Rating.Ratings.Eligible.{AllBelow, AllBelow-cons}
use resocks.Rating.Ratings.{Ratings, take_probes_at, probes_from}
use resocks.Rotator.Upstreams.{select_proxies}

pub select_proxies-some :
    (ps : List ProxyConfig) (is : List ℕ)
    → AllBelow (length ps) is
    → (qs : List ProxyConfig) × (select_proxies ps is ≡ some qs)
unfolding select_proxies
select_proxies-some ps [] h = ([], refl)
select_proxies-some ps (i ∷ is) h =
    let (p, here) = get_elem?-total ps i (h i mem-cons_self) in
    let (qs, later) = select_proxies-some ps is (λ k m. h k (mem-cons_of_mem i m)) in
    (p ∷ qs, ground (arith, here, later))

module _ (f : Float) (instant_max : ℕ) where
  pub probes_from-AllBelow :
      (p : QuarantinePolicy) (now i : ℕ) (cs : List Cell) (bound : ℕ)
      → i + length cs ≤ bound
      → AllBelow bound (probes_from f instant_max p now i cs).1
  unfolding probes_from
  probes_from-AllBelow p now i [] bound h = λ j m. absurd (not-mem-nil m)
  probes_from-AllBelow p now i (c ∷ cs) bound h =
      let rest = probes_from-AllBelow p now (suc i) cs bound (omega arith) in
      elim (Bool-cases (try_lease instant_max c now p).1) [
        | inl granted ↦ rw granted (AllBelow-cons bound i _ (omega arith) rest)
        | inr refused ↦ rw refused rest
      ]

  pub take_probes_at-AllBelow :
      (r : Ratings f instant_max) (now : ℕ)
      → AllBelow (length r.states) (take_probes_at f instant_max r now).1
  unfolding take_probes_at
  take_probes_at-AllBelow r now = elim (Bool-cases (Quarantine.enabled r.quarantine)) [
    | inl on ↦
        rw on (probes_from-AllBelow r.quarantine now 0 r.states (length r.states) (omega arith))
    | inr off ↦ rw off (λ j m. absurd (not-mem-nil m))
  ]
