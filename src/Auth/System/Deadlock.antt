-- ===== src/Auth/System/Deadlock.antt =====
-- `AuthState`: no order of events leads to a deadlock.
use resocks.Base.{
  get_elem?-append, ℕ, ◌<◌, ◌≡◌, ◌≢◌, refl, sym, subst, inl, inr, Bool, false, Option, some, List,
  [], ◌∷◌, get_elem?, Option-cases,
}
use resocks.Auth.Login.Progress.{rank, advance-rank}
use resocks.Auth.Login.Steps.Claim.{Hashes}
use resocks.Auth.Login.Steps.{Phases}
use resocks.Auth.Login.{advance, panicked}
use resocks.Auth.Persist.{Disk, Answers}
use resocks.Auth.State.Build.{build-start}
use resocks.Auth.State.{User, AuthState, build}
use resocks.Auth.System.Holders.Steps.{advance-Hands, drop_future-Hands}
use resocks.Auth.System.Live.{Held, put-Held, phase-Runs, ended}
use resocks.Auth.System.Safe.{started, run-IsSound_system}
use resocks.Auth.System.Slots.Permits.{run-permits}
use resocks.Auth.System.Sound.{IsSound, run-Goes}
use resocks.Auth.System.{
  Task, System, Event, call, step, disconnect, edit, step_task, drop_task, happens, run,
}
use resocks.Rust.Collections.{lookup}
use resocks.Rust.Text.{Bytes}

module _ (argon2_verify : Bytes → Bytes → Bool) (hash_password : Bytes → Bytes → Option Bytes)
    (hmac : Bytes → Bytes → Bytes) where
  happens-Held :
      (sys : System) (e : Event)
      → IsSound argon2_verify hash_password hmac sys
      → Held sys
      → Held (happens argon2_verify hash_password hmac sys e)
  happens-Held sys (call name password) sound held = record {
    lock = λ j h.
        let (t, there, holds) = held.lock j h in (t, get_elem?-append sys.tasks _ j t there, holds);
    gate = λ n j h.
        let (t, there, holds) = held.gate n j h in
        (t, get_elem?-append sys.tasks _ j t there, holds);
  }
  happens-Held sys (step i a) sound held = elim (Option-cases (get_elem? sys.tasks i)) [
    | inl nobody ↦
        subst (λ o. Held (step_task argon2_verify hash_password hmac sys i a o)) (sym nobody) held
    | inr (t, there) ↦
        subst (λ o. Held (step_task argon2_verify hash_password hmac sys i a o)) (sym there)
          (put-Held sys i t _ there
            (advance-Hands argon2_verify hash_password hmac i a sys.world t.login t.phase
              sound.indexed (sound.phases i t there))
            held)
  ]
  happens-Held sys (disconnect i) sound held = elim (Option-cases (get_elem? sys.tasks i)) [
    | inl nobody ↦
        subst (λ o. Held (drop_task argon2_verify hash_password hmac sys i o)) (sym nobody) held
    | inr (t, there) ↦
        subst (λ o. Held (drop_task argon2_verify hash_password hmac sys i o)) (sym there)
          (put-Held sys i t _ there
            (drop_future-Hands argon2_verify hash_password hmac i sys.world t.phase) held)
  ]
  happens-Held sys (edit disk) sound held = record { lock = held.lock; gate = held.gate }

  run-Held :
      (law : Hashes argon2_verify hash_password hmac) (es : List Event) (sys : System)
      → IsSound argon2_verify hash_password hmac sys
      → Held sys
      → Held (run argon2_verify hash_password hmac sys es)
  run-Held law [] sys sound held = held
  run-Held law (e ∷ es) sys sound held =
      let next = (run-Goes argon2_verify hash_password hmac law (e ∷ []) sys sound).sound in
      run-Held law es (happens argon2_verify hash_password hmac sys e) next
        (happens-Held sys e sound held)

  module _ (law : Hashes argon2_verify hash_password hmac) (allow_anonymous : Bool)
      (users : List User) (secret : Bytes) (workers : ℕ) (s : AuthState) (disk : Disk)
      (made : build allow_anonymous users secret workers ≡ some s) where
    started-Held : Held (started s disk)
    unfolding lookup
    started-Held =
        let (entries, _, is_s) = build-start allow_anonymous users secret workers s made in
        subst (λ x. Held (started x disk)) is_s (record { lock = λ j h. cc; gate = λ n j h. cc })

    abbrev after : List Event → System
    after es = run argon2_verify hash_password hmac (started s disk) es

    -- With a worker or more, the logins never all wait for each other: while one has no answer yet,
    -- some login has a step that brings it nearer to its end, whatever the system answers.
    pub run-no_deadlock :
        (es : List Event) (i : ℕ) (t : Task)
        → 0 < workers
        → get_elem? (after es).tasks i ≡ some t
        → ended t.phase ≡ false
        → (j : ℕ) × (u : Task) × (get_elem? (after es).tasks j ≡ some u)
          × ((a : Answers)
              → rank
                  (advance argon2_verify hash_password hmac j a (after es).world u.login u.phase).1
                < rank u.phase)
    run-no_deadlock es i t some_worker there unanswered =
        let sys = after es in
        let sound =
          run-IsSound_system argon2_verify hash_password hmac law allow_anonymous users secret
            workers s disk made in
        let (all_claims, all_hashers) =
          run-permits argon2_verify hash_password hmac law allow_anonymous users secret workers s
            disk made es in
        let held = run-Held law es (started s disk) (sound []) started-Held in
        let fine : t.phase ≢ panicked = λ e.
          subst (Phases argon2_verify hash_password hmac sys.world i t.login) e
            ((sound es).phases i t there) in
        let (j, u, at_j, free) =
          phase-Runs sys workers some_worker all_claims all_hashers held i t there t.phase refl
            unanswered fine in
        (
          j,
          u,
          at_j,
          λ a. advance-rank argon2_verify hash_password hmac j a sys.world u.login u.phase free,
        )
