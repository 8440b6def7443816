-- ===== src/Auth/System/Live.antt =====
-- `AuthState`: while a login is not at its end, some login does not wait.
use resocks.Base.{
  ℕ, suc, ◌+◌, ◌<◌, ◌≡◌, ◌≢◌, refl, sym, ap, ◌∙◌, subst, inl, inr, Bool, true, false, some, List,
  [], ◌∷◌, get_elem?, set, get_elem?-set, get_elem?-set_other, arith, Bool-cases, Option-cases,
  ◌==◌,
}
use resocks.Auth.Login.Progress.{waits, is_held}
use resocks.Auth.Login.{
  ClaimWork, Phase, entered, queued, preparing, missed, hashing, hashed, gated, admitted,
  committing, stat, persisting, publishing, caching, rearming, adopting, reverifying, verifying,
  done, panicked, World,
}
use resocks.Auth.System.Holders.{gate_of, Hands}
use resocks.Auth.System.Safe.{holds_lock}
use resocks.Auth.System.Slots.{claims, hashers, total}
use resocks.Auth.System.{Task, System, put}
use resocks.Rust.Collections.{lookup}
use resocks.Rust.Text.{Bytes}

-- A permit that a login holds is held by some login.
total-holder :
    (f : Phase → ℕ) (ts : List Task)
    → 0 < total f ts
    → (i : ℕ) × (t : Task) × (get_elem? ts i ≡ some t) × (0 < f t.phase)
total-holder f [] h = absurd (omega arith)
total-holder f (t ∷ ts) h = elim (Bool-cases (f t.phase == 0)) [
  | inr holds ↦ (0, t, refl, ground arith)
  | inl nothing ↦
      let none_here : f t.phase ≡ 0 = ground arith in
      let (i, u, there, holds) = total-holder f ts (omega (arith, none_here)) in
      (suc i, u, there, holds)
]

-- The lock and every gate are held by a login that can give them back.
pub record Held (sys : System) : Type 0 where
  pub lock :
      (j : ℕ)
      → sys.world.auth.claim_lock ≡ some j
      → (t : Task) × (get_elem? sys.tasks j ≡ some t) × (holds_lock t.phase ≡ true)
  pub gate :
      (n : Bytes) (j : ℕ)
      → lookup n sys.world.auth.claim_gates ≡ some j
      → (t : Task) × (get_elem? sys.tasks j ≡ some t) × (gate_of t.phase ≡ some n)

module _ (sys : System) (i : ℕ) (t : Task) (r : World × Phase) (P : Phase → Type 0)
    (there : get_elem? sys.tasks i ≡ some t) where
  abbrev next_task : Task
  next_task = record { login = t.login; phase = r.1 }

  taken-holder :
      (j : ℕ)
      → j ≡ i
      → P r.1
      → (v : Task) × (get_elem? (set sys.tasks i next_task) j ≡ some v) × P v.phase
  taken-holder j same holds =
      let mine = get_elem?-set sys.tasks i next_task t there in
      (
        next_task,
        subst (λ x. get_elem? (set sys.tasks i next_task) x ≡ some next_task) (sym same) mine,
        holds,
      )

  -- Whoever had it before has it still.
  kept-holder :
      (j : ℕ) (v : Task)
      → get_elem? sys.tasks j ≡ some v
      → P v.phase
      → (j ≡ i → P t.phase → P r.1)
      → (w : Task) × (get_elem? (set sys.tasks i next_task) j ≡ some w) × P w.phase
  kept-holder j v at_j v_holds keeps = elim (Bool-cases (j == i)) [
    | inl same ↦
        let is_i : j ≡ i = ground arith in
        let both : some v ≡ some t =
          sym (subst (λ x. get_elem? sys.tasks x ≡ some v) is_i at_j) ∙ there in
        let v_t : v ≡ t = cc in
        taken-holder j is_i (keeps is_i (subst (λ x. P x.phase) v_t v_holds))
    | inr differs ↦
        let other : j ≢ i = ground arith in
        (v, get_elem?-set_other sys.tasks i j next_task other ∙ at_j, v_holds)
  ]

pub put-Held :
    (sys : System) (i : ℕ) (t : Task) (r : World × Phase)
    → get_elem? sys.tasks i ≡ some t
    → Hands i sys.world t.phase r
    → Held sys
    → Held (put sys i t.login r)
put-Held sys i t r there hands held = record {
  lock = λ j h. elim (hands.lock j h) [
    | inl (same, holds) ↦ taken-holder sys i t r (λ p. holds_lock p ≡ true) there j same holds
    | inr (before, keeps) ↦
        let (v, at_j, v_holds) = held.lock j before in
        kept-holder sys i t r (λ p. holds_lock p ≡ true) there j v at_j v_holds keeps
  ];
  gate = λ n j h. elim (hands.gate n j h) [
    | inl (same, holds) ↦ taken-holder sys i t r (λ p. gate_of p ≡ some n) there j same holds
    | inr (before, keeps) ↦
        let (v, at_j, v_holds) = held.gate n j before in
        kept-holder sys i t r (λ p. gate_of p ≡ some n) there j v at_j v_holds keeps
  ];
}

-- A login that does not wait.
abbrev pub Runs : System → Type 0
Runs sys =
    (j : ℕ) × (u : Task) × (get_elem? sys.tasks j ≡ some u) × (waits sys.world u.phase ≡ false)

holds_lock-waits : (s : World) (p : Phase) → holds_lock p ≡ true → waits s p ≡ false
holds_lock-waits s (stat w) h = refl
holds_lock-waits s (persisting w fallback_users) h = refl
holds_lock-waits s (publishing w) h = refl
holds_lock-waits s (caching w) h = refl
holds_lock-waits s (adopting w g) h = refl
holds_lock-waits s (rearming w) h = refl
holds_lock-waits s _ h = cc

hashers-waits : (s : World) (p : Phase) → 0 < hashers p → waits s p ≡ false
hashers-waits s preparing h = refl
hashers-waits s (missed e) h = refl
hashers-waits s hashing h = refl
hashers-waits s (hashed w) h = refl
hashers-waits s (verifying g) h = refl
hashers-waits s _ h = absurd (omega arith)

-- The login has its answer.
abbrev pub ended : Phase → Bool
ended (done b) = true
ended _ = false

module _ (sys : System) (workers : ℕ) (some_worker : 0 < workers)
    (all_claims : sys.world.auth.claim_slots + total claims sys.tasks ≡ 2)
    (all_hashers : sys.world.auth.verify_slots + total hashers sys.tasks ≡ workers)
    (held : Held sys) where
  hashers-Runs : (sys.world.auth.verify_slots == 0) ≡ true → Runs sys
  hashers-Runs none_free =
      let taken : 0 < total hashers sys.tasks = ground arith in
      let (j, u, there, holds) = total-holder hashers sys.tasks taken in
      (j, u, there, hashers-waits sys.world u.phase holds)

  lock-Runs : (j : ℕ) → sys.world.auth.claim_lock ≡ some j → Runs sys
  lock-Runs j locked =
      let (u, there, holds) = held.lock j locked in
      (j, u, there, holds_lock-waits sys.world u.phase holds)

  -- The login at `i` is in this phase.
  module _ (i : ℕ) (t : Task) (there : get_elem? sys.tasks i ≡ some t) where
    itself : (p : Phase) → t.phase ≡ p → waits sys.world p ≡ false → Runs sys
    itself p e free = (i, t, there, subst (λ x. waits sys.world x ≡ false) (sym e) free)

    claims-Runs : (p : Phase) → t.phase ≡ p → 0 < claims p → Runs sys
    claims-Runs (committing w) e h = elim (Option-cases sys.world.auth.claim_lock) [
      | inr (j, locked) ↦ lock-Runs j locked
      | inl free ↦ itself (committing w) e (ap is_held free)
    ]
    claims-Runs (stat w) e h = itself (stat w) e refl
    claims-Runs (persisting w fallback_users) e h = itself (persisting w fallback_users) e refl
    claims-Runs (publishing w) e h = itself (publishing w) e refl
    claims-Runs (caching w) e h = itself (caching w) e refl
    claims-Runs (adopting w g) e h = itself (adopting w g) e refl
    claims-Runs (rearming w) e h = itself (rearming w) e refl
    claims-Runs _ e h = absurd (omega arith)

  slots-Runs : (sys.world.auth.claim_slots == 0) ≡ true → Runs sys
  slots-Runs none_free =
      let taken : 0 < total claims sys.tasks = ground arith in
      let (j, u, there, holds) = total-holder claims sys.tasks taken in
      claims-Runs j u there u.phase refl holds

  module _ (i : ℕ) (t : Task) (there : get_elem? sys.tasks i ≡ some t) where
    admitted-Runs : (w : ClaimWork) → t.phase ≡ admitted w → Runs sys
    admitted-Runs w e = elim (Bool-cases (sys.world.auth.claim_slots == 0)) [
      | inl none_free ↦ slots-Runs none_free
      | inr free ↦ itself i t there (admitted w) e free
    ]

    gate_of-Runs : (p : Phase) (n : Bytes) → t.phase ≡ p → gate_of p ≡ some n → Runs sys
    gate_of-Runs (admitted w) n e h = admitted-Runs w e
    gate_of-Runs (committing w) n e h = claims-Runs i t there (committing w) e (omega arith)
    gate_of-Runs (stat w) n e h = itself i t there (stat w) e refl
    gate_of-Runs (persisting w fallback_users) n e h =
        itself i t there (persisting w fallback_users) e refl
    gate_of-Runs (publishing w) n e h = itself i t there (publishing w) e refl
    gate_of-Runs (caching w) n e h = itself i t there (caching w) e refl
    gate_of-Runs (adopting w g) n e h = itself i t there (adopting w g) e refl
    gate_of-Runs (rearming w) n e h = itself i t there (rearming w) e refl
    gate_of-Runs _ n e h = cc

  gates-Runs : (n : Bytes) (j : ℕ) → lookup n sys.world.auth.claim_gates ≡ some j → Runs sys
  gates-Runs n j taken =
      let (u, there, holds) = held.gate n j taken in gate_of-Runs j u there u.phase n refl holds

  module _ (i : ℕ) (t : Task) (there : get_elem? sys.tasks i ≡ some t) where
    hashing-Runs :
        (p : Phase)
        → t.phase ≡ p
        → (waits sys.world p ≡ (sys.world.auth.verify_slots == 0))
        → Runs sys
    hashing-Runs p e same = elim (Bool-cases (sys.world.auth.verify_slots == 0)) [
      | inl none_free ↦ hashers-Runs none_free
      | inr free ↦ itself i t there p e (same ∙ free)
    ]

    pub phase-Runs : (p : Phase) → t.phase ≡ p → ended p ≡ false → p ≢ panicked → Runs sys
    phase-Runs queued e h fine = hashing-Runs queued e refl
    phase-Runs (reverifying g) e h fine = hashing-Runs (reverifying g) e refl
    phase-Runs (gated w) e h fine = elim (Option-cases (lookup w.name sys.world.auth.claim_gates)) [
      | inr (j, taken) ↦ gates-Runs w.name j taken
      | inl free ↦ itself i t there (gated w) e (ap is_held free)
    ]
    phase-Runs (admitted w) e h fine = admitted-Runs i t there w e
    phase-Runs (committing w) e h fine = claims-Runs i t there (committing w) e (omega arith)
    phase-Runs (done b) e h fine = cc
    phase-Runs panicked e h fine = absurd (fine refl)
    phase-Runs entered e h fine = itself i t there entered e refl
    phase-Runs preparing e h fine = itself i t there preparing e refl
    phase-Runs (missed entry) e h fine = itself i t there (missed entry) e refl
    phase-Runs hashing e h fine = itself i t there hashing e refl
    phase-Runs (hashed w) e h fine = itself i t there (hashed w) e refl
    phase-Runs (stat w) e h fine = itself i t there (stat w) e refl
    phase-Runs (persisting w fallback_users) e h fine =
        itself i t there (persisting w fallback_users) e refl
    phase-Runs (publishing w) e h fine = itself i t there (publishing w) e refl
    phase-Runs (caching w) e h fine = itself i t there (caching w) e refl
    phase-Runs (adopting w g) e h fine = itself i t there (adopting w g) e refl
    phase-Runs (rearming w) e h fine = itself i t there (rearming w) e refl
    phase-Runs (verifying g) e h fine = itself i t there (verifying g) e refl
