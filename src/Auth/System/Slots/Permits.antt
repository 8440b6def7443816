-- ===== src/Auth/System/Slots/Permits.antt =====
-- `AuthState`: the permits of all logins together.
use resocks.Base.{
  ℕ, zero, suc, ◌+◌, ◌≡◌, ◌≢◌, sym, subst, inl, inr, Bool, Option, some, List, [], ◌∷◌, ◌++◌,
  get_elem?, set, get_elem?-set, arith, Option-cases,
}
use resocks.Auth.Login.Steps.Claim.{Hashes}
use resocks.Auth.Login.Steps.{Phases}
use resocks.Auth.Login.{Phase, entered, panicked, Login, World, advance}
use resocks.Auth.Persist.{Disk}
use resocks.Auth.State.Build.{build-start}
use resocks.Auth.State.{User, AuthState, build}
use resocks.Auth.System.Safe.{started, run-IsSound_system}
use resocks.Auth.System.Sound.{IsSound, run-Goes}
use resocks.Auth.System.{
  Task, System, Event, call, step, disconnect, edit, drop_future, put, step_task, drop_task,
  happens, run,
}
use resocks.Rust.Text.{Bytes}
use resocks.Auth.System.Slots.{
  claims, hashers, total, Balanced, advance-Balanced, drop_future-Balanced,
}

total-set :
    (f : Phase → ℕ) (ts : List Task) (i : ℕ) (t u : Task)
    → get_elem? ts i ≡ some t
    → total f (set ts i u) + f t.phase ≡ total f ts + f u.phase
total-set f [] i t u h = cc
total-set f (x ∷ ts) zero t u h =
    let same : x ≡ t = cc in
    subst (λ y. f u.phase + total f ts + f y.phase ≡ f x.phase + total f ts + f u.phase) same
      (omega arith)
total-set f (x ∷ ts) (suc i) t u h = omega (arith, total-set f ts i t u h)

total-append_one :
    (f : Phase → ℕ) (ts : List Task) (t : Task) → total f (ts ++ t ∷ []) ≡ total f ts + f t.phase
total-append_one f [] t = omega arith
total-append_one f (x ∷ ts) t = omega (arith, total-append_one f ts t)

module _ (argon2_verify : Bytes → Bytes → Bool) (hash_password : Bytes → Bytes → Option Bytes)
    (hmac : Bytes → Bytes → Bytes) where
  -- Every permit is free or held by a login.
  abbrev AllHeld : ℕ → System → Type 0
  AllHeld workers sys =
      (sys.world.auth.claim_slots + total claims sys.tasks ≡ 2)
      × (sys.world.auth.verify_slots + total hashers sys.tasks ≡ workers)

  put-AllHeld :
      (workers : ℕ) (sys : System) (i : ℕ) (t : Task) (r : World × Phase)
      → get_elem? sys.tasks i ≡ some t
      → Balanced sys.world t.phase r
      → r.1 ≢ panicked
      → AllHeld workers sys
      → AllHeld workers (put sys i t.login r)
  put-AllHeld workers sys i t r there balanced fine (claims_all, hashers_all) =
      let (same_claims, same_hashers) = balanced fine in
      let u : Task = record { login = t.login; phase = r.1 } in
      (
        omega (arith, total-set claims sys.tasks i t u there),
        omega (arith, total-set hashers sys.tasks i t u there),
      )

  never_panicked :
      (s : World) (i : ℕ) (l : Login) (p : Phase)
      → Phases argon2_verify hash_password hmac s i l p
      → p ≢ panicked
  never_panicked s i l p k e = subst (Phases argon2_verify hash_password hmac s i l) e k

  put-never_panicked :
      (sys : System) (i : ℕ) (t : Task) (r : World × Phase)
      → get_elem? sys.tasks i ≡ some t
      → IsSound argon2_verify hash_password hmac (put sys i t.login r)
      → r.1 ≢ panicked
  put-never_panicked sys i t r there sound =
      let u : Task = record { login = t.login; phase = r.1 } in
      never_panicked r.0 i t.login r.1 (sound.phases i u (get_elem?-set sys.tasks i u t there))

  happens-AllHeld :
      (workers : ℕ) (sys : System) (e : Event)
      → IsSound argon2_verify hash_password hmac (happens argon2_verify hash_password hmac sys e)
      → AllHeld workers sys
      → AllHeld workers (happens argon2_verify hash_password hmac sys e)
  happens-AllHeld workers sys (call name password) sound (c, h) =
      let t : Task = record {
        login = record { name = name; password = password };
        phase = entered;
      } in
      (
        omega (arith, total-append_one claims sys.tasks t),
        omega (arith, total-append_one hashers sys.tasks t),
      )
  happens-AllHeld workers sys (step i a) sound all = elim (Option-cases (get_elem? sys.tasks i)) [
    | inl nobody ↦
        subst (λ o. AllHeld workers (step_task argon2_verify hash_password hmac sys i a o))
          (sym nobody) all
    | inr (t, there) ↦
        let r = advance argon2_verify hash_password hmac i a sys.world t.login t.phase in
        let sound' =
          subst
            (λ o.
              IsSound argon2_verify hash_password hmac
                (step_task argon2_verify hash_password hmac sys i a o))
            there sound in
        subst (λ o. AllHeld workers (step_task argon2_verify hash_password hmac sys i a o))
          (sym there)
          (put-AllHeld workers sys i t r there
            (advance-Balanced argon2_verify hash_password hmac i a sys.world t.login t.phase)
            (put-never_panicked sys i t r there sound') all)
  ]
  happens-AllHeld workers sys (disconnect i) sound all =
      elim (Option-cases (get_elem? sys.tasks i)) [
        | inl nobody ↦
            subst (λ o. AllHeld workers (drop_task argon2_verify hash_password hmac sys i o))
              (sym nobody) all
        | inr (t, there) ↦
            let r = drop_future sys.world t.phase in
            let sound' =
              subst
                (λ o.
                  IsSound argon2_verify hash_password hmac
                    (drop_task argon2_verify hash_password hmac sys i o))
                there sound in
            subst (λ o. AllHeld workers (drop_task argon2_verify hash_password hmac sys i o))
              (sym there)
              (put-AllHeld workers sys i t r there
                (drop_future-Balanced argon2_verify hash_password hmac sys.world t.phase)
                (put-never_panicked sys i t r there sound') all)
      ]
  happens-AllHeld workers sys (edit disk) sound all = all

  run-AllHeld :
      (law : Hashes argon2_verify hash_password hmac) (workers : ℕ) (es : List Event) (sys : System)
      → IsSound argon2_verify hash_password hmac sys
      → AllHeld workers sys
      → AllHeld workers (run argon2_verify hash_password hmac sys es)
  run-AllHeld law workers [] sys sound all = all
  run-AllHeld law workers (e ∷ es) sys sound all =
      let next = (run-Goes argon2_verify hash_password hmac law (e ∷ []) sys sound).sound in
      run-AllHeld law workers es (happens argon2_verify hash_password hmac sys e) next
        (happens-AllHeld workers sys e next all)

  module _ (law : Hashes argon2_verify hash_password hmac) (allow_anonymous : Bool)
      (users : List User) (secret : Bytes) (workers : ℕ) (s : AuthState) (disk : Disk)
      (made : build allow_anonymous users secret workers ≡ some s) where
    -- No permit is lost or doubled, whatever happens and whoever goes away: those for claims that are
    -- free and those that logins hold are two together, and those for hashing are as many as workers.
    pub run-permits :
        (es : List Event)
        → (let sys = run argon2_verify hash_password hmac (started s disk) es in
            (sys.world.auth.claim_slots + total claims sys.tasks ≡ 2)
            × (sys.world.auth.verify_slots + total hashers sys.tasks ≡ workers))
    run-permits es =
        let (entries, _, is_s) = build-start allow_anonymous users secret workers s made in
        let slots : AllHeld workers (started s disk) =
          subst (λ x. AllHeld workers (started x disk)) is_s (omega arith, omega arith) in
        run-AllHeld law workers es (started s disk)
          (run-IsSound_system argon2_verify hash_password hmac law allow_anonymous users secret
            workers s disk made [])
          slots
