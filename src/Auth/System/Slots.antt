-- ===== src/Auth/System/Slots.antt =====
-- `AuthState`: the permits for hashing and for claims, which no step loses or doubles.
use resocks.Base.{
  ℕ, zero, suc, ◌+◌, ◌<◌, ◌≡◌, ◌≢◌, refl, sym, subst, inl, inr, Bool, Option, none, some, List, [],
  ◌∷◌, ◌++◌, length, get_elem?, set, get_elem?-set, arith, Bool-cases, Option-cases, ◌==◌, ltb,
}
use resocks.Auth.Login.Cases.{
  if_free-cases, enter-cases, prepare-cases, read_hash-cases, hash_claim-cases, recheck-cases,
  take_hashing-cases, admit-cases, verify-cases,
}
use resocks.Auth.Login.Steps.Claim.{Hashes}
use resocks.Auth.Login.Steps.{Phases}
use resocks.Auth.Login.{
  ClaimWork, Phase, entered, queued, preparing, missed, hashing, hashed, gated, admitted,
  committing, stat, persisting, publishing, caching, rearming, adopting, reverifying, verifying,
  done, panicked, Login, World, candidate, cache_matches, enter, take_hashing, prepare, read_hash,
  hash_claim, check_hashed, pass_gate, admit, take_lock, take_snapshot, persist,
  verify_against_committed, advance, recheck, compute_hash, if_free, after_persist,
}
use resocks.Auth.Persist.{
  Disk, Answers, ClaimPersist, written, disk_hash_changed, failed, persist_claim,
}
use resocks.Auth.State.Build.{build-start}
use resocks.Auth.State.{User, UserEntry, AuthState, init_hash, hash_at, enabled_entry, build}
use resocks.Auth.System.Safe.{started, run-IsSound_system}
use resocks.Auth.System.Sound.{IsSound, run-Goes}
use resocks.Auth.System.{
  Task, System, Event, call, step, disconnect, edit, drop_future, put, step_task, drop_task,
  happens, run,
}
use resocks.Clients.{AllowedClients}
use resocks.Rust.Collections.{lookup}
use resocks.Rust.Text.{Bytes, bytes_eq, is_empty}
pub mod Permits

-- The permits for claims that a login holds, and those for hashing.
abbrev pub claims : Phase → ℕ
claims (committing w) = 1
claims (stat w) = 1
claims (persisting w fallback_users) = 1
claims (publishing w) = 1
claims (caching w) = 1
claims (adopting w h) = 1
claims (rearming w) = 1
claims _ = 0

abbrev pub hashers : Phase → ℕ
hashers preparing = 1
hashers (missed e) = 1
hashers hashing = 1
hashers (hashed w) = 1
hashers (verifying h) = 1
hashers _ = 0

abbrev pub total : (Phase → ℕ) → List Task → ℕ
total f [] = 0
total f (t ∷ ts) = f t.phase + total f ts

-- The permits that are free and those that the login holds are as many as before.
abbrev pub Balanced : World → Phase → World × Phase → Type 0
Balanced s p (s', p') =
    p' ≢ panicked
    → (s'.auth.claim_slots + claims p' ≡ s.auth.claim_slots + claims p)
      × (s'.auth.verify_slots + hashers p' ≡ s.auth.verify_slots + hashers p)

module _ (argon2_verify : Bytes → Bytes → Bool) (hash_password : Bytes → Bytes → Option Bytes)
    (hmac : Bytes → Bytes → Bytes) where
  enter-Balanced :
      (s : World) (l : Login) → Balanced s entered (enter argon2_verify hash_password hmac s l)
  enter-Balanced s l =
      enter-cases argon2_verify hash_password hmac (Balanced s entered) s l (λ _. (refl, refl))
        (λ _ _. (refl, refl)) (λ _. (refl, refl))

  prepare-Balanced :
      (s : World) (l : Login) → Balanced s preparing (prepare argon2_verify hash_password hmac s l)
  prepare-Balanced s l =
      prepare-cases argon2_verify hash_password hmac (Balanced s preparing) s l
        (λ _. (omega arith, omega arith)) (λ _ _. (omega arith, omega arith))
        (λ e _ _. (refl, refl))

  read_hash-Balanced :
      (s : World) (e : UserEntry)
      → Balanced s (missed e) (read_hash argon2_verify hash_password hmac s e)
  read_hash-Balanced s e =
      read_hash-cases argon2_verify hash_password hmac (Balanced s (missed e)) s e
        (λ _ fine. absurd (fine refl)) (λ _. (refl, refl)) (λ h _ _ _. (refl, refl))

  hash_claim-Balanced :
      (a : Answers) (s : World) (l : Login)
      → Balanced s hashing (hash_claim argon2_verify hash_password hmac a s l)
  hash_claim-Balanced a s l =
      hash_claim-cases argon2_verify hash_password hmac (Balanced s hashing) s a l
        (λ _. (omega arith, omega arith)) (λ e h _ _ _. (refl, refl))

  recheck-Balanced :
      (s : World) (w : ClaimWork) (p : Phase) (claimed : Bytes → World × Phase)
      (unclaimed : World × Phase)
      → ((h : Bytes) → Balanced s p (claimed h))
      → Balanced s p unclaimed
      → Balanced s p (recheck argon2_verify hash_password hmac s w claimed unclaimed)
  recheck-Balanced s w p claimed unclaimed k k' =
      recheck-cases argon2_verify hash_password hmac (Balanced s p) s w claimed unclaimed
        (λ _ fine. absurd (fine refl)) (λ h _ _. k h) (λ _. k')

  take_hashing-Balanced :
      (s : World) (waits goes : Phase)
      → claims goes ≡ claims waits
      → hashers goes ≡ hashers waits + 1
      → Balanced s waits (take_hashing argon2_verify hash_password hmac s waits goes)
  take_hashing-Balanced s waits goes same more =
      take_hashing-cases argon2_verify hash_password hmac (Balanced s waits) s waits goes
        (λ _. (refl, refl))
        (λ free _. (
          rw same refl,
          let some_free : 0 < s.auth.verify_slots = ground arith in omega (arith, more),
        ))

  admit-Balanced :
      (s : World) (w : ClaimWork)
      → Balanced s (admitted w) (admit argon2_verify hash_password hmac s w)
  admit-Balanced s w =
      admit-cases argon2_verify hash_password hmac (Balanced s (admitted w)) s w (λ _. (refl, refl))
        (λ free _. (let some_free : 0 < s.auth.claim_slots = ground arith in omega arith, refl))

  verifying-Balanced :
      (s : World) (l : Login) (h : Bytes)
      → Balanced s (verifying h) (verify_against_committed argon2_verify hash_password hmac s l h)
  verifying-Balanced s l h =
      verify-cases argon2_verify hash_password hmac (Balanced s (verifying h)) s l h
        (λ _ _. (omega arith, omega arith)) (λ _. (omega arith, omega arith))

  after_persist-claims :
      (w : ClaimWork) (p : ClaimPersist)
      → (claims (after_persist w p) ≡ 1) × (hashers (after_persist w p) ≡ 0)
  after_persist-claims w written = (refl, refl)
  after_persist-claims w (disk_hash_changed h) = (refl, refl)
  after_persist-claims w failed = (refl, refl)

  pub advance-Balanced :
      (i : ℕ) (a : Answers) (s : World) (l : Login) (p : Phase)
      → Balanced s p (advance argon2_verify hash_password hmac i a s l p)
  unfolding advance check_hashed pass_gate take_lock take_snapshot persist
  advance-Balanced i a s l entered = enter-Balanced s l
  advance-Balanced i a s l queued = take_hashing-Balanced s queued preparing refl refl
  advance-Balanced i a s l preparing = prepare-Balanced s l
  advance-Balanced i a s l (missed e) = read_hash-Balanced s e
  advance-Balanced i a s l hashing = hash_claim-Balanced a s l
  advance-Balanced i a s l (hashed w) =
      recheck-Balanced s w (hashed w) _ _ (λ h _. (refl, refl)) (λ _. (refl, omega arith))
  advance-Balanced i a s l (gated w) =
      if_free-cases (Balanced s (gated w)) (lookup w.name s.auth.claim_gates) (λ _. (refl, refl))
        (λ _. recheck-Balanced s w (gated w) _ _ (λ h _. (refl, refl)) (λ _. (refl, refl)))
  advance-Balanced i a s l (admitted w) = admit-Balanced s w
  advance-Balanced i a s l (committing w) =
      if_free-cases (Balanced s (committing w)) s.auth.claim_lock (λ _. (refl, refl))
        (λ _.
          recheck-Balanced s w (committing w) _ _ (λ h _. (omega arith, refl)) (λ _. (refl, refl)))
  advance-Balanced i a s l (stat w) = λ _. (refl, refl)
  advance-Balanced i a s l (persisting w fallback_users) = λ _.
      let (one, zero_h) =
        after_persist-claims w (persist_claim a s.disk w.name w.new_hash fallback_users).1 in
      (rw one refl, rw zero_h refl)
  advance-Balanced i a s l (publishing w) = λ _. (refl, refl)
  advance-Balanced i a s l (caching w) = λ _. (omega arith, refl)
  advance-Balanced i a s l (adopting w h) = λ _. (omega arith, refl)
  advance-Balanced i a s l (rearming w) = λ _. (omega arith, refl)
  advance-Balanced i a s l (reverifying h) =
      take_hashing-Balanced s (reverifying h) (verifying h) refl refl
  advance-Balanced i a s l (verifying h) = verifying-Balanced s l h
  advance-Balanced i a s l (done b) = λ _. (refl, refl)
  advance-Balanced i a s l panicked = λ fine. absurd (fine refl)

  pub drop_future-Balanced : (s : World) (p : Phase) → Balanced s p (drop_future s p)
  unfolding drop_future
  drop_future-Balanced s entered _ = (refl, refl)
  drop_future-Balanced s queued _ = (refl, refl)
  drop_future-Balanced s (gated w) _ = (refl, refl)
  drop_future-Balanced s (admitted w) _ = (refl, refl)
  drop_future-Balanced s (reverifying h) _ = (refl, refl)
  drop_future-Balanced s p _ = (refl, refl)
