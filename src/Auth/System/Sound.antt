-- ===== src/Auth/System/Sound.antt =====
-- `AuthState`: what holds of all logins together, whatever happens and in whatever order.
use resocks.Base.{
  ℕ, zero, suc, ◌≡◌, ◌≢◌, refl, sym, ◌∙◌, subst, ◌⊎◌, inl, inr, Bool, false, Option, some, List, [],
  ◌∷◌, ◌++◌, get_elem?, set, get_elem?-set, get_elem?-set_other, arith, Bool-cases, Option-cases,
  ◌==◌,
}
use resocks.Auth.Login.Invariant.{
  IsIndexed, IsCommitted, Moves, IsAuthentic, IsPhase-Moves, IsIndexed-Moves, IsAuthentic-Moves,
  IsCommitted-Moves,
}
use resocks.Auth.Login.Steps.Advance.{advance-IsStep}
use resocks.Auth.Login.Steps.Claim.{Hashes}
use resocks.Auth.Login.Steps.{IsStep, Phases, Cached, gently-IsStep, idle-IsStep}
use resocks.Auth.Login.{Phase, entered, queued, gated, admitted, reverifying, done, Login, World}
use resocks.Auth.Persist.{Disk}
use resocks.Auth.System.{
  Task, System, Event, call, step, disconnect, edit, drop_future, put, step_task, drop_task,
  happens, run,
}
use resocks.Rust.Collections.{remove_entry}
use resocks.Rust.Text.{Bytes}

get_elem?-append_cases {ℓ} :
    {A : Type ℓ} (xs : List A) (x y : A) (i : ℕ)
    → get_elem? (xs ++ x ∷ []) i ≡ some y
    → (get_elem? xs i ≡ some y) ⊎ (x ≡ y)
get_elem?-append_cases [] x y zero h = inr cc
get_elem?-append_cases [] x y (suc i) h = cc
get_elem?-append_cases (z ∷ xs) x y zero h = inl h
get_elem?-append_cases (z ∷ xs) x y (suc i) h = get_elem?-append_cases xs x y i h

module _ (argon2_verify : Bytes → Bytes → Bool) (hash_password : Bytes → Bytes → Option Bytes)
    (hmac : Bytes → Bytes → Bytes) where
  pub record IsSound (sys : System) : Type 0 where
    pub indexed : IsIndexed sys.world
    pub cached : Cached argon2_verify hash_password hmac sys.world
    pub phases :
        (i : ℕ) (t : Task)
        → get_elem? sys.tasks i ≡ some t
        → Phases argon2_verify hash_password hmac sys.world i t.login t.phase

  -- After a step of one task that ends well, all is sound, and every chosen hash is as it was.
  pub put-IsSound :
      (sys : System) (i : ℕ) (t : Task) (r : World × Phase)
      → IsSound sys
      → get_elem? sys.tasks i ≡ some t
      → IsStep argon2_verify hash_password hmac i sys.world t.login r
      → IsSound (put sys i t.login r)
  put-IsSound sys i t r ok there good = record {
    indexed =
        IsIndexed-Moves argon2_verify hash_password hmac i sys.world r.0 good.moves ok.indexed;
    cached = good.cached;
    phases = λ j u at_j. elim (Bool-cases (j == i)) [
      | inl same ↦
          let is_i : j ≡ i = ground arith in
          let mine = get_elem?-set sys.tasks i (record { login = t.login; phase = r.1 }) t there in
          let found =
            subst
              (λ x.
                get_elem? (set sys.tasks i (record { login = t.login; phase = r.1 })) x ≡ some u)
              is_i at_j in
          let is_u : some (record { login = t.login; phase = r.1 }) ≡ some u = sym mine ∙ found in
          let task_u : record { login = t.login; phase = r.1 } ≡ u = cc in
          subst (λ x. Phases argon2_verify hash_password hmac r.0 x u.login u.phase) (sym is_i)
            (subst (λ x. Phases argon2_verify hash_password hmac r.0 i x.login x.phase) task_u
              good.phase)
      | inr differs ↦
          let other : j ≢ i = ground arith in
          let before =
            sym (get_elem?-set_other sys.tasks i j (record { login = t.login; phase = r.1 }) other)
            ∙ at_j in
          IsPhase-Moves argon2_verify hash_password hmac i sys.world r.0 good.moves j u.login other
            u.phase (ok.phases j u before)
    ];
  }

  drop_future-IsStep :
      (i : ℕ) (s : World) (l : Login) (p : Phase)
      → Cached argon2_verify hash_password hmac s
      → Phases argon2_verify hash_password hmac s i l p
      → IsStep argon2_verify hash_password hmac i s l (drop_future s p)
  unfolding drop_future
  drop_future-IsStep i s l entered c k =
      idle-IsStep argon2_verify hash_password hmac i s l c (done false) tt
  drop_future-IsStep i s l queued c k =
      idle-IsStep argon2_verify hash_password hmac i s l c (done false) tt
  drop_future-IsStep i s l (gated w) c k =
      idle-IsStep argon2_verify hash_password hmac i s l c (done false) tt
  drop_future-IsStep i s l (reverifying h) c k =
      idle-IsStep argon2_verify hash_password hmac i s l c (done false) tt
  drop_future-IsStep i s l (admitted w) c k =
      gently-IsStep argon2_verify hash_password hmac i s s.auth.verify_slots s.auth.claim_slots
        (remove_entry w.name s.auth.claim_gates) s.disk l (done false) c (λ _ _ _ _. tt)
  drop_future-IsStep i s l p c k = idle-IsStep argon2_verify hash_password hmac i s l c p k

  -- The state is sound, and every hash that was chosen before is still that of its account.
  pub record Goes (sys sys' : System) : Type 0 where
    pub sound : IsSound sys'
    pub same_secret : sys'.world.auth.server_secret ≡ sys.world.auth.server_secret
    pub stays : (name h : Bytes) → IsCommitted sys.world name h → IsCommitted sys'.world name h

  put-Goes :
      (sys : System) (i : ℕ) (t : Task) (r : World × Phase)
      → IsSound sys
      → get_elem? sys.tasks i ≡ some t
      → IsStep argon2_verify hash_password hmac i sys.world t.login r
      → Goes sys (put sys i t.login r)
  put-Goes sys i t r ok there good = record {
    sound = put-IsSound sys i t r ok there good;
    same_secret = good.moves.same_secret;
    stays = IsCommitted-Moves argon2_verify hash_password hmac i sys.world r.0 good.moves;
  }

  pub IsAuthentic-Goes :
      (sys sys' : System) (name mac : Bytes)
      → Goes sys sys'
      → IsAuthentic argon2_verify hash_password hmac sys.world name mac
      → IsAuthentic argon2_verify hash_password hmac sys'.world name mac
  IsAuthentic-Goes sys sys' name mac goes k = record {
    hash = k.hash;
    committed = goes.stays name k.hash k.committed;
    password = k.password;
    verifies = k.verifies;
    same_mac = rw goes.same_secret k.same_mac;
  }

  unmoved-Goes : (sys : System) → IsSound sys → Goes sys sys
  unmoved-Goes sys ok = record { sound = ok; same_secret = refl; stays = λ _ _ k. k }

  call-phases :
      (sys : System) (l : Login)
      → IsSound sys
      → (i : ℕ) (t : Task)
      → get_elem? (sys.tasks ++ record { login = l; phase = entered } ∷ []) i ≡ some t
      → Phases argon2_verify hash_password hmac sys.world i t.login t.phase
  call-phases sys l ok i t there =
      elim (get_elem?-append_cases sys.tasks (record { login = l; phase = entered }) t i there) [
        | inl before ↦ ok.phases i t before
        | inr new_one ↦
            subst (λ x. Phases argon2_verify hash_password hmac sys.world i x.login x.phase) new_one
              tt
      ]

  edited-Moves : (i : ℕ) (s : World) (disk : Disk) → Moves i s (record s { disk = disk })
  edited-Moves i s disk = record {
    same_entries = refl;
    same_secret = refl;
    same_length = refl;
    same_hash = λ idx h here _. here;
    same_lock = λ j other e. (e, refl);
  }

  edit-Goes :
      (sys : System) (disk : Disk)
      → IsSound sys
      → Goes sys (record sys { world = record sys.world { disk = disk } })
  edit-Goes sys disk ok =
      let w' : World = record sys.world { disk = disk } in
      record {
        sound = record {
          indexed = ok.indexed;
          cached = λ name mac e.
              IsAuthentic-Moves argon2_verify hash_password hmac 0 sys.world w'
                (edited-Moves 0 sys.world disk) name mac (ok.cached name mac e);
          phases = λ j t there.
              IsPhase-Moves argon2_verify hash_password hmac (suc j) sys.world w'
                (edited-Moves (suc j) sys.world disk) j t.login (λ e. omega arith) t.phase
                (ok.phases j t there);
        };
        same_secret = refl;
        stays =
            IsCommitted-Moves argon2_verify hash_password hmac 0 sys.world w'
              (edited-Moves 0 sys.world disk);
      }

  module _ (law : Hashes argon2_verify hash_password hmac) where
    happens-Goes :
        (sys : System) (e : Event)
        → IsSound sys
        → Goes sys (happens argon2_verify hash_password hmac sys e)
    happens-Goes sys (call name password) ok = record {
      sound = record {
        indexed = ok.indexed;
        cached = ok.cached;
        phases = call-phases sys (record { name = name; password = password }) ok;
      };
      same_secret = refl;
      stays = λ _ _ k. k;
    }
    happens-Goes sys (step i a) ok = elim (Option-cases (get_elem? sys.tasks i)) [
      | inl nobody ↦
          subst (λ o. Goes sys (step_task argon2_verify hash_password hmac sys i a o)) (sym nobody)
            (unmoved-Goes sys ok)
      | inr (t, there) ↦
          subst (λ o. Goes sys (step_task argon2_verify hash_password hmac sys i a o)) (sym there)
            (put-Goes sys i t _ ok there (
              advance-IsStep argon2_verify hash_password hmac i a sys.world t.login t.phase law
                ok.indexed ok.cached (ok.phases i t there)))
    ]
    happens-Goes sys (disconnect i) ok = elim (Option-cases (get_elem? sys.tasks i)) [
      | inl nobody ↦
          subst (λ o. Goes sys (drop_task argon2_verify hash_password hmac sys i o)) (sym nobody)
            (unmoved-Goes sys ok)
      | inr (t, there) ↦
          subst (λ o. Goes sys (drop_task argon2_verify hash_password hmac sys i o)) (sym there)
            (put-Goes sys i t _ ok there
              (drop_future-IsStep i sys.world t.login t.phase ok.cached (ok.phases i t there)))
    ]
    happens-Goes sys (edit disk) ok = edit-Goes sys disk ok

    pub run-Goes :
        (es : List Event) (sys : System)
        → IsSound sys
        → Goes sys (run argon2_verify hash_password hmac sys es)
    run-Goes [] sys ok = unmoved-Goes sys ok
    run-Goes (e ∷ es) sys ok =
        let first = happens-Goes sys e ok in
        let rest = run-Goes es (happens argon2_verify hash_password hmac sys e) first.sound in
        record {
          sound = rest.sound;
          same_secret = rest.same_secret ∙ first.same_secret;
          stays = λ name h k. rest.stays name h (first.stays name h k);
        }
