-- ===== src/Auth/System/Safe.antt =====
-- `AuthState`: what no order of logins, edits of the file and lost connections can break.
use resocks.Base.{ℕ, ◌≡◌, subst, Bool, true, false, Option, some, List, [], get_elem?}
use resocks.Auth.Login.Invariant.{IsCommitted, IsAuthentic}
use resocks.Auth.Login.Steps.Claim.{Hashes}
use resocks.Auth.Login.Steps.{Phases}
use resocks.Auth.Login.{
  Phase, entered, queued, preparing, missed, hashing, hashed, gated, admitted, committing, stat,
  persisting, publishing, caching, rearming, adopting, reverifying, verifying, done, panicked,
  World, candidate, compute_cache_hmac,
}
use resocks.Auth.Persist.{Disk}
use resocks.Auth.State.Build.{build-AllBelow, build-start}
use resocks.Auth.State.{User, AuthState, build}
use resocks.Auth.System.Sound.{IsSound, run-Goes, IsAuthentic-Goes}
use resocks.Auth.System.{Task, System, Event, run}
use resocks.Rust.Collections.{lookup}
use resocks.Rust.Text.{Bytes}

-- The login is between `claim_lock.lock()` and the end of `claim_commit`.
abbrev pub holds_lock : Phase → Bool
holds_lock (stat w) = true
holds_lock (persisting w fallback_users) = true
holds_lock (publishing w) = true
holds_lock (caching w) = true
holds_lock (adopting w h) = true
holds_lock (rearming w) = true
holds_lock _ = false

-- The server has started; nobody has called.
abbrev pub started : AuthState → Disk → System
started s disk = record { world = record { auth = s; disk = disk }; tasks = [] }

module _ (argon2_verify : Bytes → Bytes → Bool) (hash_password : Bytes → Bytes → Option Bytes)
    (hmac : Bytes → Bytes → Bytes) where
  holds_lock-locked :
      (s : World) (i : ℕ) (t : Task)
      → Phases argon2_verify hash_password hmac s i t.login t.phase
      → holds_lock t.phase ≡ true
      → s.auth.claim_lock ≡ some i
  holds_lock-locked s i t = go t.phase
    where
      go :
          (p : Phase)
          → Phases argon2_verify hash_password hmac s i t.login p
          → holds_lock p ≡ true
          → s.auth.claim_lock ≡ some i
      go (stat w) k h = k.locked
      go (persisting w fallback_users) k h = k.locked
      go (publishing w) k h = k.locked
      go (caching w) (_, locked, _) h = locked
      go (adopting w g) (k, _) h = k.locked
      go (rearming w) k h = k.locked
      go entered k h = cc
      go queued k h = cc
      go preparing k h = cc
      go (missed e) k h = cc
      go hashing k h = cc
      go (hashed w) k h = cc
      go (gated w) k h = cc
      go (admitted w) k h = cc
      go (committing w) k h = cc
      go (reverifying g) k h = cc
      go (verifying g) k h = cc
      go (done b) k h = cc
      go panicked k h = cc

  module _ (law : Hashes argon2_verify hash_password hmac) (allow_anonymous : Bool)
      (users : List User) (secret : Bytes) (workers : ℕ) (s : AuthState) (disk : Disk)
      (made : build allow_anonymous users secret workers ≡ some s) where
    -- What any events make of the server that has started.
    abbrev after : List Event → System
    after es = run argon2_verify hash_password hmac (started s disk) es

    no_cache : (name mac : Bytes) → lookup name s.cache ≡ some mac → ⊥
    unfolding lookup
    no_cache =
        let (entries, _, is_s) = build-start allow_anonymous users secret workers s made in
        subst (λ x. (name mac : Bytes) → lookup name x.cache ≡ some mac → ⊥) is_s (λ name mac h. cc)

    started-IsSound : IsSound argon2_verify hash_password hmac (started s disk)
    started-IsSound = record {
      indexed = build-AllBelow allow_anonymous users secret workers s made;
      cached = λ name mac h. absurd (no_cache name mac h);
      phases = λ i t h. cc;
    }

    -- Whatever happens, in whatever order, every login is sound: it never panics, a claim that holds the lock is
    -- of an account that is not claimed, a hash that is compared is the published one, and who is let in is
    -- authentic.
    pub run-IsSound_system : (es : List Event) → IsSound argon2_verify hash_password hmac (after es)
    run-IsSound_system es =
        (run-Goes argon2_verify hash_password hmac law es (started s disk) started-IsSound).sound

    -- Who is let in has an enabled account with a published hash of a chosen password, and the mac of
    -- his password is that of a password which this hash verifies; so it is at any later time, too.
    pub run-authenticates :
        (es later : List Event) (i : ℕ) (t : Task)
        → get_elem? (after es).tasks i ≡ some t
        → t.phase ≡ done true
        → IsAuthentic argon2_verify hash_password hmac
            (run argon2_verify hash_password hmac (after es) later).world
            t.login.name
            (candidate argon2_verify hash_password hmac (started s disk).world t.login)
    run-authenticates es later i t there accepted =
        let first =
          run-Goes argon2_verify hash_password hmac law es (started s disk) started-IsSound in
        let then_on = run-Goes argon2_verify hash_password hmac law later (after es) first.sound in
        let let_in =
          subst (Phases argon2_verify hash_password hmac (after es).world i t.login) accepted
            (first.sound.phases i t there) in
        IsAuthentic-Goes argon2_verify hash_password hmac (after es) _ t.login.name _ then_on (
          subst
            (λ key. IsAuthentic argon2_verify hash_password hmac (after es).world t.login.name (
              compute_cache_hmac argon2_verify hash_password hmac key t.login.name
                t.login.password))
            first.same_secret let_in)

    -- No two logins are in the claim's critical section at once.
    pub run-one_claimant :
        (es : List Event) (i j : ℕ) (t u : Task)
        → get_elem? (after es).tasks i ≡ some t
        → get_elem? (after es).tasks j ≡ some u
        → holds_lock t.phase ≡ true
        → holds_lock u.phase ≡ true
        → i ≡ j
    run-one_claimant es i j t u at_i at_j t_holds u_holds =
        let sound = run-IsSound_system es in
        let t_lock = holds_lock-locked (after es).world i t (sound.phases i t at_i) t_holds in
        let u_lock = holds_lock-locked (after es).world j u (sound.phases j u at_j) u_holds in cc

    -- A hash that is published stays: whatever happens later, the account has the same hash.
    pub run-IsCommitted :
        (es later : List Event) (name h : Bytes)
        → IsCommitted (after es).world name h
        → IsCommitted (run argon2_verify hash_password hmac (after es) later).world name h
    run-IsCommitted es later name h =
        (run-Goes argon2_verify hash_password hmac law later (after es)
            (run-IsSound_system es)).stays
          name h
