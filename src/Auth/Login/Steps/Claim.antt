-- ===== src/Auth/Login/Steps/Claim.antt =====
-- `AuthState`: the steps of the login that holds the claim's lock.
use resocks.Base.{
  ℕ, suc, ◌≡◌, ◌≢◌, refl, sym, ◌∙◌, subst, inl, inr, Bool, true, false, Option, none, some, List,
  arith, Bool-cases, ◌==◌,
}
use resocks.Auth.Login.Invariant.{
  Moves, IsAuthentic, IsWork, IsClaiming, IsAuthentic-Moves, IsWork-Moves,
}
use resocks.Auth.Login.{
  ClaimWork, Phase, caching, reverifying, done, Login, World, compute_hash, candidate,
  take_snapshot, persist, publish, after_persist, release_claim, unlock,
}
use resocks.Auth.Persist.{Answers, ClaimPersist, written, disk_hash_changed, failed}
use resocks.Auth.Persist.Frame.{IsChanged, persist_claim-IsChanged}
use resocks.Auth.State.Hashes.{length-set_hash, hash_at-set_hash, hash_at-set_hash_other}
use resocks.Auth.State.{User, init_hash, hash_at, set_hash}
use resocks.Rust.Collections.{insert_entry, remove_entry, lookup-insert_entry}
use resocks.Rust.Text.{Bytes, bytes_eq, bytes_eq_sound}
use resocks.Auth.Login.Steps.{IsStep, Phases, Cached, gently-IsStep, idle-IsStep}

module _ (argon2_verify : Bytes → Bytes → Bool) (hash_password : Bytes → Bytes → Option Bytes)
    (hmac : Bytes → Bytes → Bytes) where
  -- A `compute_hash` gives a hash of its own form, which verifies the password.
  abbrev pub Hashes : Type 0
  Hashes =
      (password salt h : Bytes)
      → hash_password password salt ≡ some h
      → (argon2_verify h password ≡ true) × (h ≢ init_hash)

  pub compute_hash-verifies :
      Hashes
      → (salt : Option Bytes) (password h : Bytes)
      → compute_hash argon2_verify hash_password hmac salt password ≡ some h
      → (argon2_verify h password ≡ true) × (h ≢ init_hash)
  unfolding compute_hash
  compute_hash-verifies law none password h e = cc
  compute_hash-verifies law (some salt) password h e = law password salt h e

  module _ (i : ℕ) (s : World) (l : Login) (c : Cached argon2_verify hash_password hmac s) where
    -- The claim holds as well after a step that leaves the lock and the users alone.
    IsClaiming-same :
        (w : ClaimWork)
        → IsClaiming argon2_verify hash_password hmac s i l w
        → (s' : World) → Moves i s s'
        → s'.auth.claim_lock ≡ s.auth.claim_lock
        → s'.auth.users ≡ s.auth.users
        → IsClaiming argon2_verify hash_password hmac s' i l w
    IsClaiming-same w k s' m lock users = record {
      work = IsWork-Moves argon2_verify hash_password hmac i s s' m l w k.work;
      locked = lock ∙ k.locked;
      unclaimed = subst (λ x. hash_at x w.index ≡ some init_hash) (sym users) k.unclaimed;
    }

    pub take_snapshot-IsStep :
        (w : ClaimWork)
        → IsClaiming argon2_verify hash_password hmac s i l w
        → IsStep argon2_verify hash_password hmac i s l
            (take_snapshot argon2_verify hash_password hmac s w)
    unfolding take_snapshot
    take_snapshot-IsStep w k = idle-IsStep argon2_verify hash_password hmac i s l c _ k

    after_persist-Phases :
        (s' : World) (w : ClaimWork) (p : ClaimPersist)
        → IsChanged p
        → IsClaiming argon2_verify hash_password hmac s' i l w
        → Phases argon2_verify hash_password hmac s' i l (after_persist w p)
    after_persist-Phases s' w written _ k = k
    after_persist-Phases s' w (disk_hash_changed h) chosen k = (k, chosen)
    after_persist-Phases s' w failed _ k = k

    pub persist-IsStep :
        (a : Answers) (w : ClaimWork) (fallback_users : Option (List User))
        → IsClaiming argon2_verify hash_password hmac s i l w
        → IsStep argon2_verify hash_password hmac i s l
            (persist argon2_verify hash_password hmac a s w fallback_users)
    unfolding persist
    persist-IsStep a w fallback_users k =
        gently-IsStep argon2_verify hash_password hmac i s s.auth.verify_slots s.auth.claim_slots
          s.auth.claim_gates _ l _ c
          (λ s' m lock users.
            after_persist-Phases s' w _
              (persist_claim-IsChanged a w.name w.new_hash s.disk fallback_users)
              (IsClaiming-same w k s' m lock users))

    -- Another hash for the account of the claim; all but the entries and the secret may change, too.
    module _ (w : ClaimWork) (k : IsClaiming argon2_verify hash_password hmac s i l w) (h : Bytes)
        (claimers : ℕ) (gates : List (Bytes × ℕ)) (lock : Option ℕ) where
      abbrev pub rewritten : World
      rewritten = record {
        auth = record s.auth {
          users = set_hash s.auth.users w.index h;
          claim_lock = lock;
          claim_slots = claimers;
          claim_gates = gates;
        };
        disk = s.disk;
      }

      rewritten-same_hash :
          (idx : ℕ) (g : Bytes)
          → hash_at s.auth.users idx ≡ some g
          → g ≢ init_hash
          → hash_at (set_hash s.auth.users w.index h) idx ≡ some g
      rewritten-same_hash idx g here chosen = elim (Bool-cases (idx == w.index)) [
        | inl same ↦
            let at_claim : idx ≡ w.index = ground arith in
            let fresh = k.unclaimed in
            let both : some g ≡ some init_hash =
              sym here
              ∙ subst (λ x. hash_at s.auth.users x ≡ some init_hash) (sym at_claim) fresh in
            absurd (chosen cc)
        | inr other ↦ hash_at-set_hash_other s.auth.users w.index h idx (ground arith) ∙ here
      ]

      rewritten-Moves : Moves i s rewritten
      rewritten-Moves = record {
        same_entries = refl;
        same_secret = refl;
        same_length = length-set_hash s.auth.users w.index h;
        same_hash = rewritten-same_hash;
        same_lock = λ j other held. let mine = k.locked in absurd (other cc);
      }

      rewritten-IsStep :
          (p : Phase)
          → (Moves i s rewritten
              → IsWork argon2_verify hash_password hmac rewritten l w
              → hash_at rewritten.auth.users w.index ≡ some h
              → Phases argon2_verify hash_password hmac rewritten i l p)
          → IsStep argon2_verify hash_password hmac i s l (rewritten, p)
      rewritten-IsStep p q = record {
        moves = rewritten-Moves;
        cached = λ name mac e.
            IsAuthentic-Moves argon2_verify hash_password hmac i s rewritten rewritten-Moves name
              mac (c name mac e);
        phase =
            q rewritten-Moves
              (IsWork-Moves argon2_verify hash_password hmac i s rewritten rewritten-Moves l w
                k.work)
              (hash_at-set_hash s.auth.users w.index h init_hash k.unclaimed);
      }

    module _ (w : ClaimWork) (k : IsClaiming argon2_verify hash_password hmac s i l w) where
      pub publishing-IsStep :
          IsStep argon2_verify hash_password hmac i s l (publish s w.index w.new_hash, caching w)
      publishing-IsStep =
          rewritten-IsStep w k w.new_hash s.auth.claim_slots s.auth.claim_gates s.auth.claim_lock
            (caching w) (λ _ work here. (work, k.locked, here))

      pub rearming-IsStep :
          IsStep argon2_verify hash_password hmac i s l
            (release_claim (unlock (publish s w.index init_hash)) w.name, done false)
      rearming-IsStep =
          rewritten-IsStep w k init_hash (suc s.auth.claim_slots)
            (remove_entry w.name s.auth.claim_gates) none (done false) (λ _ _ _. tt)

      pub adopting-IsStep :
          (h : Bytes)
          → h ≢ init_hash
          → IsStep argon2_verify hash_password hmac i s l
              (release_claim (unlock (publish s w.index h)) w.name, reverifying h)
      adopting-IsStep h chosen =
          rewritten-IsStep w k h (suc s.auth.claim_slots) (remove_entry w.name s.auth.claim_gates)
            none (reverifying h)
            (λ _ work here. record {
              entry = work.entry;
              found = work.found;
              is_enabled = work.is_enabled;
              published =
                  subst (λ x. hash_at (set_hash s.auth.users w.index h) x ≡ some h) work.at_index
                    here;
              chosen = chosen;
            })

    -- The mac of a password that the published hash verifies goes into the cache.
    module _ (name : Bytes) (hashers claimers : ℕ) (gates : List (Bytes × ℕ)) (lock : Option ℕ)
        (kept : (j : ℕ) → j ≢ i → s.auth.claim_lock ≡ some j → lock ≡ some j)
        (authentic : IsAuthentic argon2_verify hash_password hmac s name
          (candidate argon2_verify hash_password hmac s l))
        (same_name : name ≡ l.name) where
      abbrev pub remembered : World
      remembered = record {
        auth = record s.auth {
          cache = insert_entry name (candidate argon2_verify hash_password hmac s l) s.auth.cache;
          verify_slots = hashers;
          claim_slots = claimers;
          claim_gates = gates;
          claim_lock = lock;
        };
        disk = s.disk;
      }

      remembered-Moves : Moves i s remembered
      remembered-Moves = record {
        same_entries = refl;
        same_secret = refl;
        same_length = refl;
        same_hash = λ idx g here _. here;
        same_lock = λ j other held. (kept j other held, refl);
      }

      moved :
          (n m : Bytes)
          → IsAuthentic argon2_verify hash_password hmac s n m
          → IsAuthentic argon2_verify hash_password hmac remembered n m
      moved n m y =
          IsAuthentic-Moves argon2_verify hash_password hmac i s remembered remembered-Moves n m y

      remembered-Cached : Cached argon2_verify hash_password hmac remembered
      remembered-Cached n m e =
          let mac = candidate argon2_verify hash_password hmac s l in
          elim (Bool-cases (bytes_eq n name)) [
            | inl same ↦
                let is_name = bytes_eq_sound n name same in
                let found = sym (lookup-insert_entry n name mac s.auth.cache) ∙ e in
                let is_mac : some mac ≡ some m = rw same at found in
                let at_mac : mac ≡ m = cc in
                subst (λ x. IsAuthentic argon2_verify hash_password hmac remembered x m)
                  (sym is_name)
                  (subst (IsAuthentic argon2_verify hash_password hmac remembered name) at_mac
                    (moved name mac authentic))
            | inr other ↦
                let found = sym (lookup-insert_entry n name mac s.auth.cache) ∙ e in
                moved n m (c n m (rw other at found))
          ]

      pub remembered-IsStep : IsStep argon2_verify hash_password hmac i s l (remembered, done true)
      remembered-IsStep = record {
        moves = remembered-Moves;
        cached = remembered-Cached;
        phase =
            subst
              (λ x.
                IsAuthentic argon2_verify hash_password hmac remembered x
                  (candidate argon2_verify hash_password hmac s l))
              same_name (moved name _ authentic);
      }
