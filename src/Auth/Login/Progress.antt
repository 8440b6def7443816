-- ===== src/Auth/Login/Progress.antt =====
-- `verify_async`: a step that does not wait brings the login nearer to its end.
use resocks.Base.{ℕ, ◌<◌, ◌≡◌, Bool, true, false, Option, none, some, arith, ◌==◌}
use resocks.Auth.Login.Cases.{
  enter-cases, prepare-cases, read_hash-cases, hash_claim-cases, recheck-cases, verify-cases,
}
use resocks.Auth.Login.{
  ClaimWork, Phase, entered, queued, preparing, missed, hashing, hashed, gated, admitted,
  committing, stat, persisting, publishing, caching, rearming, adopting, reverifying, verifying,
  done, panicked, Login, World, enter, take_hashing, prepare, read_hash, hash_claim, check_hashed,
  pass_gate, admit, take_lock, take_snapshot, persist, verify_against_committed, advance, recheck,
  if_free, after_persist,
}
use resocks.Auth.Persist.{Answers, ClaimPersist, written, disk_hash_changed, failed}
use resocks.Auth.State.{UserEntry}
use resocks.Rust.Collections.{lookup}
use resocks.Rust.Text.{Bytes}

-- The most steps that a login still takes, its waits not counted.
abbrev pub rank : Phase → ℕ
rank entered = 14
rank queued = 13
rank preparing = 12
rank (missed e) = 11
rank hashing = 10
rank (hashed w) = 9
rank (gated w) = 8
rank (admitted w) = 7
rank (committing w) = 6
rank (stat w) = 5
rank (persisting w fallback_users) = 4
rank (publishing w) = 3
rank (adopting w h) = 3
rank (rearming w) = 3
rank (caching w) = 2
rank (reverifying h) = 2
rank (verifying h) = 1
rank (done b) = 0
rank panicked = 0

abbrev pub is_held {ℓ} : {A : Type ℓ} → Option A → Bool
is_held none = false
is_held (some holder) = true

-- The login waits for what another holds, or has ended.
abbrev pub waits : World → Phase → Bool
waits s queued = s.auth.verify_slots == 0
waits s (reverifying h) = s.auth.verify_slots == 0
waits s (gated w) = is_held (lookup w.name s.auth.claim_gates)
waits s (admitted w) = s.auth.claim_slots == 0
waits s (committing w) = is_held s.auth.claim_lock
waits s (done b) = true
waits s panicked = true
waits s _ = false

module _ (argon2_verify : Bytes → Bytes → Bool) (hash_password : Bytes → Bytes → Option Bytes)
    (hmac : Bytes → Bytes → Bytes) where
  abbrev Below : ℕ → World × Phase → Type 0
  Below n r = rank r.1 < n

  enter-Below : (s : World) (l : Login) → Below 14 (enter argon2_verify hash_password hmac s l)
  enter-Below s l =
      enter-cases argon2_verify hash_password hmac (Below 14) s l (omega arith) (λ _. omega arith)
        (omega arith)

  prepare-Below : (s : World) (l : Login) → Below 12 (prepare argon2_verify hash_password hmac s l)
  prepare-Below s l =
      prepare-cases argon2_verify hash_password hmac (Below 12) s l (omega arith) (λ _. omega arith)
        (λ e _. omega arith)

  read_hash-Below :
      (s : World) (e : UserEntry) → Below 11 (read_hash argon2_verify hash_password hmac s e)
  read_hash-Below s e =
      read_hash-cases argon2_verify hash_password hmac (Below 11) s e (λ _. omega arith)
        (omega arith) (λ h _ _. omega arith)

  hash_claim-Below :
      (a : Answers) (s : World) (l : Login)
      → Below 10 (hash_claim argon2_verify hash_password hmac a s l)
  hash_claim-Below a s l =
      hash_claim-cases argon2_verify hash_password hmac (Below 10) s a l (omega arith)
        (λ e h _ _. omega arith)

  recheck-Below :
      (s : World) (w : ClaimWork) (n : ℕ) (claimed : Bytes → World × Phase)
      (unclaimed : World × Phase)
      → 0 < n
      → ((h : Bytes) → Below n (claimed h))
      → Below n unclaimed
      → Below n (recheck argon2_verify hash_password hmac s w claimed unclaimed)
  recheck-Below s w n claimed unclaimed pos k k' =
      recheck-cases argon2_verify hash_password hmac (Below n) s w claimed unclaimed (λ _. pos)
        (λ h _ _. k h) (λ _. k')

  if_free-Below :
      (o : Option ℕ) (n : ℕ) (waiting goes : World × Phase)
      → is_held o ≡ false
      → Below n goes
      → Below n (if_free o waiting goes)
  if_free-Below (some i) n waiting goes free k = cc
  if_free-Below none n waiting goes free k = k

  after_persist-rank : (w : ClaimWork) (p : ClaimPersist) → rank (after_persist w p) < 4
  after_persist-rank w written = omega arith
  after_persist-rank w (disk_hash_changed h) = omega arith
  after_persist-rank w failed = omega arith

  -- A step of a login that does not wait lowers its rank, so no login takes more than fourteen.
  pub advance-rank :
      (i : ℕ) (a : Answers) (s : World) (l : Login) (p : Phase)
      → waits s p ≡ false
      → rank (advance argon2_verify hash_password hmac i a s l p).1 < rank p
  unfolding advance check_hashed pass_gate take_lock take_snapshot persist take_hashing admit
      verify_against_committed
  advance-rank i a s l entered h = enter-Below s l
  advance-rank i a s l queued h = rw (h, take_hashing) (omega arith)
  advance-rank i a s l preparing h = prepare-Below s l
  advance-rank i a s l (missed e) h = read_hash-Below s e
  advance-rank i a s l hashing h = hash_claim-Below a s l
  advance-rank i a s l (hashed w) h =
      recheck-Below s w 9 _ _ (omega arith) (λ g. omega arith) (omega arith)
  advance-rank i a s l (gated w) h =
      if_free-Below (lookup w.name s.auth.claim_gates) 8 _ _ h
        (recheck-Below s w 8 _ _ (omega arith) (λ g. omega arith) (omega arith))
  advance-rank i a s l (admitted w) h = rw (h, admit) (omega arith)
  advance-rank i a s l (committing w) h =
      if_free-Below s.auth.claim_lock 6 _ _ h
        (recheck-Below s w 6 _ _ (omega arith) (λ g. omega arith) (omega arith))
  advance-rank i a s l (stat w) h = omega arith
  advance-rank i a s l (persisting w fallback_users) h = after_persist-rank w _
  advance-rank i a s l (publishing w) h = omega arith
  advance-rank i a s l (caching w) h = omega arith
  advance-rank i a s l (adopting w g) h = omega arith
  advance-rank i a s l (rearming w) h = omega arith
  advance-rank i a s l (reverifying g) h = rw (h, take_hashing) (omega arith)
  advance-rank i a s l (verifying g) h =
      verify-cases argon2_verify hash_password hmac (Below 1) s l g (λ _. omega arith) (omega arith)
  advance-rank i a s l (done b) h = cc
  advance-rank i a s l panicked h = cc
