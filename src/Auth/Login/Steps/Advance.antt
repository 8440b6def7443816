-- ===== src/Auth/Login/Steps/Advance.antt =====
-- `AuthState`: every step of a login keeps what holds of the shared state and of the login.
use resocks.Base.{ℕ, suc, ◌-◌, ◌≡◌, refl, sym, subst, Bool, true, false, Option, none, some}
use resocks.Auth.Login.Invariant.{IsIndexed, IsCommitted, Moves, IsCommitted-Moves}
use resocks.Auth.Login.Cases.{take_hashing-cases, verify-cases}
use resocks.Auth.Login.{
  ClaimWork, Phase, entered, queued, preparing, missed, hashing, hashed, gated, admitted,
  committing, stat, persisting, publishing, caching, rearming, adopting, reverifying, verifying,
  done, panicked, Login, World, compute_cache_hmac, candidate, take_hashing,
  verify_against_committed, advance, remember, release_claim, unlock,
}
use resocks.Auth.Persist.{Answers}
use resocks.Auth.State.{hash_at}
use resocks.Rust.Collections.{lookup, remove_entry}
use resocks.Rust.Text.{Bytes}
use resocks.Auth.Login.Steps.{IsStep, Phases, Cached, gently-IsStep, idle-IsStep, freed-IsStep}
use resocks.Auth.Login.Steps.Claim.{
  Hashes, compute_hash-verifies, take_snapshot-IsStep, persist-IsStep, publishing-IsStep,
  rearming-IsStep, adopting-IsStep, remembered-IsStep,
}
use resocks.Auth.Login.Steps.Prepare.{
  enter-IsStep, prepare-IsStep, read_hash-IsStep, hash_claim-IsStep, check_hashed-IsStep,
  pass_gate-IsStep, admit-IsStep, take_lock-IsStep,
}

module _ (argon2_verify : Bytes → Bytes → Bool) (hash_password : Bytes → Bytes → Option Bytes)
    (hmac : Bytes → Bytes → Bytes) where
  module _ (i : ℕ) (s : World) (l : Login) (c : Cached argon2_verify hash_password hmac s) where
    take_hashing-IsStep :
        (waits goes : Phase)
        → Phases argon2_verify hash_password hmac s i l waits
        → ((s' : World) → Moves i s s' → Phases argon2_verify hash_password hmac s' i l goes)
        → IsStep argon2_verify hash_password hmac i s l
            (take_hashing argon2_verify hash_password hmac s waits goes)
    take_hashing-IsStep waits goes k k' =
        take_hashing-cases argon2_verify hash_password hmac
          (IsStep argon2_verify hash_password hmac i s l) s waits goes
          (idle-IsStep argon2_verify hash_password hmac i s l c waits k)
          (λ _.
            gently-IsStep argon2_verify hash_password hmac i s (s.auth.verify_slots - 1)
              s.auth.claim_slots s.auth.claim_gates s.disk l goes c (λ s' m _ _. k' s' m))

    verifying-IsStep :
        (h : Bytes)
        → IsCommitted s l.name h
        → IsStep argon2_verify hash_password hmac i s l
            (verify_against_committed argon2_verify hash_password hmac s l h)
    verifying-IsStep h k =
        verify-cases argon2_verify hash_password hmac
          (IsStep argon2_verify hash_password hmac i s l) s l h
          (λ right.
            remembered-IsStep argon2_verify hash_password hmac i s l c l.name
              (suc s.auth.verify_slots) s.auth.claim_slots s.auth.claim_gates s.auth.claim_lock
              (λ j _ held. held)
              (record {
                hash = h;
                committed = k;
                password = l.password;
                verifies = right;
                same_mac = refl;
              })
              refl)
          (freed-IsStep argon2_verify hash_password hmac i s l c (done false) (λ _ _. tt))

    caching-IsStep :
        (w : ClaimWork)
        → Hashes argon2_verify hash_password hmac
        → Phases argon2_verify hash_password hmac s i l (caching w)
        → IsStep argon2_verify hash_password hmac i s l (
          release_claim
              (unlock (remember s w.name (candidate argon2_verify hash_password hmac s l)))
              w.name,
          done true,
        )
    caching-IsStep w law (work, locked, published) =
        let (verifies, chosen) =
          compute_hash-verifies argon2_verify hash_password hmac law work.salt l.password w.new_hash
            work.hashes in
        remembered-IsStep argon2_verify hash_password hmac i s l c w.name s.auth.verify_slots
          (suc s.auth.claim_slots) (remove_entry w.name s.auth.claim_gates) none
          (λ j other held. absurd (other cc))
          (record {
            hash = w.new_hash;
            committed = record {
              entry = work.entry;
              found =
                  subst (λ x. lookup x s.auth.entries ≡ some work.entry) (sym work.same_name)
                    work.found;
              is_enabled = work.is_enabled;
              published =
                  subst (λ x. hash_at s.auth.users x ≡ some w.new_hash) work.at_index published;
              chosen = chosen;
            };
            password = l.password;
            verifies = verifies;
            same_mac =
                subst
                  (λ x.
                    candidate argon2_verify hash_password hmac s l
                    ≡ compute_cache_hmac argon2_verify hash_password hmac s.auth.server_secret x
                        l.password)
                  (sym work.same_name) refl;
          })
          work.same_name

  pub advance-IsStep :
      (i : ℕ) (a : Answers) (s : World) (l : Login) (p : Phase)
      → Hashes argon2_verify hash_password hmac
      → IsIndexed s
      → Cached argon2_verify hash_password hmac s
      → Phases argon2_verify hash_password hmac s i l p
      → IsStep argon2_verify hash_password hmac i s l
          (advance argon2_verify hash_password hmac i a s l p)
  unfolding advance
  advance-IsStep i a s l entered law d c k = enter-IsStep argon2_verify hash_password hmac i s l c
  advance-IsStep i a s l queued law d c k =
      take_hashing-IsStep i s l c queued preparing tt (λ _ _. tt)
  advance-IsStep i a s l preparing law d c k =
      prepare-IsStep argon2_verify hash_password hmac i s l c
  advance-IsStep i a s l (missed e) law d c k =
      read_hash-IsStep argon2_verify hash_password hmac i s l c e d k
  advance-IsStep i a s l hashing law d c k =
      hash_claim-IsStep argon2_verify hash_password hmac i s l c a k
  advance-IsStep i a s l (hashed w) law d c k =
      check_hashed-IsStep argon2_verify hash_password hmac i s l c w d k
  advance-IsStep i a s l (gated w) law d c k =
      pass_gate-IsStep argon2_verify hash_password hmac i s l c w d k
  advance-IsStep i a s l (admitted w) law d c k =
      admit-IsStep argon2_verify hash_password hmac i s l c w d k
  advance-IsStep i a s l (committing w) law d c k =
      take_lock-IsStep argon2_verify hash_password hmac i s l c w d k
  advance-IsStep i a s l (stat w) law d c k =
      take_snapshot-IsStep argon2_verify hash_password hmac i s l c w k
  advance-IsStep i a s l (persisting w fallback_users) law d c k =
      persist-IsStep argon2_verify hash_password hmac i s l c a w fallback_users k
  advance-IsStep i a s l (publishing w) law d c k =
      publishing-IsStep argon2_verify hash_password hmac i s l c w k
  advance-IsStep i a s l (caching w) law d c k = caching-IsStep i s l c w law k
  advance-IsStep i a s l (adopting w h) law d c (k, chosen) =
      adopting-IsStep argon2_verify hash_password hmac i s l c w k h chosen
  advance-IsStep i a s l (rearming w) law d c k =
      rearming-IsStep argon2_verify hash_password hmac i s l c w k
  advance-IsStep i a s l (reverifying h) law d c k =
      take_hashing-IsStep i s l c (reverifying h) (verifying h) k
        (λ s' m. IsCommitted-Moves argon2_verify hash_password hmac i s s' m l.name h k)
  advance-IsStep i a s l (verifying h) law d c k = verifying-IsStep i s l c h k
  advance-IsStep i a s l (done b) law d c k =
      idle-IsStep argon2_verify hash_password hmac i s l c (done b) k
  advance-IsStep i a s l panicked law d c k = absurd k
