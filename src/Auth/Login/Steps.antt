-- ===== src/Auth/Login/Steps.antt =====
-- `AuthState`: steps of a login that keep what holds of the shared state and of the logins.
pub mod Prepare
pub mod Claim
pub mod Advance
use resocks.Base.{
  ℕ, zero, suc, ◌+◌, ◌-◌, ◌≤◌, ◌<◌, ◌≡◌, ◌≢◌, refl, sym, ap, ◌∙◌, subst, inl, inr, Bool, true,
  false, Option, none, some, List, [], ◌∷◌, length, arith, Bool-cases, Option-cases, ◌==◌, ltb,
  get_elem?-total, get_elem?, set, length-set, get_elem?-set, get_elem?-set_other, if◌then◌else◌,
}
use resocks.Auth.Login.Invariant.{
  IsIndexed, IsCommitted, Moves, IsAuthentic, IsWork, IsClaiming, IsPhase, IsCached,
  IsCommitted-Moves, IsAuthentic-Moves, IsWork-Moves, IsPhase-Moves_done,
}
use resocks.Auth.Login.{
  ClaimWork, Phase, entered, queued, preparing, hashing, hashed, gated, admitted, committing, stat,
  persisting, publishing, caching, rearming, adopting, reverifying, verifying, done, panicked,
  Login, World, compute_hash, compute_cache_hmac, candidate, cache_matches, enter, take_hashing,
  prepare, hash_claim, check_hashed, pass_gate, admit, take_lock, take_snapshot, persist,
  verify_against_committed, advance, publish, recheck, release_hashing, if_free,
}
use resocks.Auth.Persist.{Disk, Answers, Commit}
use resocks.Auth.State.Hashes.{
  enabled_entry-lookup, cache_hit-some, length-set_hash, hash_at-set_hash, hash_at-set_hash_other,
}
use resocks.Auth.State.{
  User, UserEntry, AuthState, init_hash, hash_at, set_hash, if_enabled, enabled_entry,
}
use resocks.Rust.Collections.{lookup, insert_entry, remove_entry, lookup-insert_entry}
use resocks.Rust.Text.{Bytes, bytes_eq, bytes_eq_refl, bytes_eq_sound, is_empty}

module _ (argon2_verify : Bytes → Bytes → Bool) (hash_password : Bytes → Bytes → Option Bytes)
    (hmac : Bytes → Bytes → Bytes) where
  abbrev pub Phases : World → ℕ → Login → Phase → Type 0
  Phases = IsPhase argon2_verify hash_password hmac

  abbrev pub Cached : World → Type 0
  Cached = IsCached argon2_verify hash_password hmac

  -- A step of the login `i` that ends well.
  pub record IsStep (i : ℕ) (s : World) (l : Login) (r : World × Phase) : Type 0 where
    pub moves : Moves i s r.0
    pub cached : Cached r.0
    pub phase : Phases r.0 i l r.1

  -- Only permits, gates and the file are written, and maybe the lock that the login holds.
  module _ (i : ℕ) (s : World) (hashers claimers : ℕ) (gates : List (Bytes × ℕ)) (lock : Option ℕ)
      (disk : Disk) (kept : (j : ℕ) → j ≢ i → s.auth.claim_lock ≡ some j → lock ≡ some j) where
    abbrev pub lightly : World
    lightly = record {
      auth = record s.auth {
        verify_slots = hashers;
        claim_slots = claimers;
        claim_gates = gates;
        claim_lock = lock;
      };
      disk = disk;
    }

    pub lightly-Moves : Moves i s lightly
    lightly-Moves = record {
      same_entries = refl;
      same_secret = refl;
      same_length = refl;
      same_hash = λ idx h here _. here;
      same_lock = λ j other e. (kept j other e, refl);
    }

    pub lightly-IsStep :
        (l : Login) (p : Phase)
        → Cached s
        → (Moves i s lightly → Phases lightly i l p)
        → IsStep i s l (lightly, p)
    lightly-IsStep l p c k = record {
      moves = lightly-Moves;
      cached = λ name mac e.
          IsAuthentic-Moves argon2_verify hash_password hmac i s lightly lightly-Moves name mac
            (c name mac e);
      phase = k lightly-Moves;
    }

  -- Nothing but permits, gates and the file.
  pub gently-IsStep :
      (i : ℕ) (s : World) (hashers claimers : ℕ) (gates : List (Bytes × ℕ)) (disk : Disk)
      (l : Login) (p : Phase)
      → Cached s
      → ((s' : World)
          → Moves i s s'
          → s'.auth.claim_lock ≡ s.auth.claim_lock
          → s'.auth.users ≡ s.auth.users
          → Phases s' i l p)
      → IsStep i s l (lightly i s hashers claimers gates s.auth.claim_lock disk (λ j _ e. e), p)
  gently-IsStep i s hashers claimers gates disk l p c k =
      lightly-IsStep i s hashers claimers gates s.auth.claim_lock disk (λ j _ e. e) l p c
        (λ m. k _ m refl refl)

  module _ (i : ℕ) (s : World) (l : Login) (c : Cached s) where
    pub idle-IsStep : (p : Phase) → Phases s i l p → IsStep i s l (s, p)
    idle-IsStep p k = record {
      moves = record {
        same_entries = refl;
        same_secret = refl;
        same_length = refl;
        same_hash = λ idx h here _. here;
        same_lock = λ j other e. (e, refl);
      };
      cached = c;
      phase = k;
    }

    pub freed-IsStep :
        (p : Phase)
        → ((s' : World) → Moves i s s' → Phases s' i l p)
        → IsStep i s l (release_hashing s, p)
    freed-IsStep p k =
        gently-IsStep i s (suc s.auth.verify_slots) s.auth.claim_slots s.auth.claim_gates s.disk l p
          c (λ s' m _ _. k s' m)
