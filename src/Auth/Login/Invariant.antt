-- ===== src/Auth/Login/Invariant.antt =====
-- `AuthState`: what holds of the shared state and of each login between any two steps.
use resocks.Base.{ℕ, ◌<◌, ◌≡◌, ◌≢◌, sym, subst, Bool, true, false, Option, some, length}
use resocks.Auth.Login.{
  ClaimWork, Phase, entered, queued, preparing, missed, hashing, hashed, gated, admitted,
  committing, stat, persisting, publishing, caching, rearming, adopting, reverifying, verifying,
  done, panicked, Login, World, compute_hash, compute_cache_hmac,
}
use resocks.Auth.State.{UserEntry, init_hash, hash_at}
use resocks.Rust.Collections.{lookup}
use resocks.Rust.Text.{Bytes}

-- Each entry stands for a user of the list.
abbrev pub IsIndexed : World → Type 0
IsIndexed s =
    (name : Bytes) (e : UserEntry)
    → lookup name s.auth.entries ≡ some e
    → e.index < length s.auth.users

-- The account is enabled, and this hash of a chosen password is published.
pub record IsCommitted (s : World) (name : Bytes) (h : Bytes) : Type 0 where
  pub entry : UserEntry
  pub found : lookup name s.auth.entries ≡ some entry
  pub is_enabled : entry.enabled ≡ true
  pub published : hash_at s.auth.users entry.index ≡ some h
  pub chosen : h ≢ init_hash

-- What a step of the login `i` leaves as it is.
pub record Moves (i : ℕ) (s s' : World) : Type 0 where
  pub same_entries : s'.auth.entries ≡ s.auth.entries
  pub same_secret : s'.auth.server_secret ≡ s.auth.server_secret
  pub same_length : length s'.auth.users ≡ length s.auth.users
  pub same_hash :
      (idx : ℕ) (h : Bytes)
      → hash_at s.auth.users idx ≡ some h
      → h ≢ init_hash
      → hash_at s'.auth.users idx ≡ some h
  pub same_lock :
      (j : ℕ)
      → j ≢ i
      → s.auth.claim_lock ≡ some j
      → (s'.auth.claim_lock ≡ some j) × (s'.auth.users ≡ s.auth.users)

module _ (argon2_verify : Bytes → Bytes → Bool) (hash_password : Bytes → Bytes → Option Bytes)
    (hmac : Bytes → Bytes → Bytes) where
  -- The mac is that of a password which the published hash of the account verifies.
  pub record IsAuthentic (s : World) (name : Bytes) (mac : Bytes) : Type 0 where
    pub hash : Bytes
    pub committed : IsCommitted s name hash
    pub password : Bytes
    pub verifies : argon2_verify hash password ≡ true
    pub same_mac :
        mac ≡ compute_cache_hmac argon2_verify hash_password hmac s.auth.server_secret name password

  -- The claim is one of this login, for an account that is enabled.
  pub record IsWork (s : World) (l : Login) (w : ClaimWork) : Type 0 where
    pub same_name : w.name ≡ l.name
    pub entry : UserEntry
    pub found : lookup l.name s.auth.entries ≡ some entry
    pub is_enabled : entry.enabled ≡ true
    pub at_index : w.index ≡ entry.index
    pub salt : Option Bytes
    pub hashes : compute_hash argon2_verify hash_password hmac salt l.password ≡ some w.new_hash

  -- The login holds the lock over an account that is not claimed.
  pub record IsClaiming (s : World) (i : ℕ) (l : Login) (w : ClaimWork) : Type 0 where
    pub work : IsWork s l w
    pub locked : s.auth.claim_lock ≡ some i
    pub unclaimed : hash_at s.auth.users w.index ≡ some init_hash

  abbrev pub IsPhase : World → ℕ → Login → Phase → Type 0
  IsPhase s i l entered = Unit
  IsPhase s i l queued = Unit
  IsPhase s i l preparing = Unit
  IsPhase s i l (missed e) = (lookup l.name s.auth.entries ≡ some e) × (e.enabled ≡ true)
  IsPhase s i l hashing =
      (e : UserEntry) × (lookup l.name s.auth.entries ≡ some e) × (e.enabled ≡ true)
  IsPhase s i l (hashed w) = IsWork s l w
  IsPhase s i l (gated w) = IsWork s l w
  IsPhase s i l (admitted w) = IsWork s l w
  IsPhase s i l (committing w) = IsWork s l w
  IsPhase s i l (stat w) = IsClaiming s i l w
  IsPhase s i l (persisting w fallback_users) = IsClaiming s i l w
  IsPhase s i l (publishing w) = IsClaiming s i l w
  IsPhase s i l (rearming w) = IsClaiming s i l w
  IsPhase s i l (adopting w h) = IsClaiming s i l w × (h ≢ init_hash)
  IsPhase s i l (caching w) =
      IsWork s l w × (s.auth.claim_lock ≡ some i) × (hash_at s.auth.users w.index ≡ some w.new_hash)
  IsPhase s i l (reverifying h) = IsCommitted s l.name h
  IsPhase s i l (verifying h) = IsCommitted s l.name h
  IsPhase s i l (done true) =
      IsAuthentic s l.name
        (compute_cache_hmac argon2_verify hash_password hmac s.auth.server_secret l.name l.password)
  IsPhase s i l (done false) = Unit
  IsPhase s i l panicked = ⊥

  abbrev pub IsCached : World → Type 0
  IsCached s = (name mac : Bytes) → lookup name s.auth.cache ≡ some mac → IsAuthentic s name mac

  module _ (i : ℕ) (s s' : World) (m : Moves i s s') where
    pub IsCommitted-Moves : (name h : Bytes) → IsCommitted s name h → IsCommitted s' name h
    IsCommitted-Moves name h c = record {
      entry = c.entry;
      found = rw m.same_entries c.found;
      is_enabled = c.is_enabled;
      published = m.same_hash c.entry.index h c.published c.chosen;
      chosen = c.chosen;
    }

    pub IsAuthentic-Moves : (name mac : Bytes) → IsAuthentic s name mac → IsAuthentic s' name mac
    IsAuthentic-Moves name mac a = record {
      hash = a.hash;
      committed = IsCommitted-Moves name a.hash a.committed;
      password = a.password;
      verifies = a.verifies;
      same_mac = rw m.same_secret a.same_mac;
    }

    pub IsWork-Moves : (l : Login) (w : ClaimWork) → IsWork s l w → IsWork s' l w
    IsWork-Moves l w k = record {
      same_name = k.same_name;
      entry = k.entry;
      found = rw m.same_entries k.found;
      is_enabled = k.is_enabled;
      at_index = k.at_index;
      salt = k.salt;
      hashes = k.hashes;
    }

    pub IsIndexed-Moves : IsIndexed s → IsIndexed s'
    IsIndexed-Moves d name e found = rw m.same_length (d name e (rw m.same_entries at found))

    pub IsPhase-Moves_done :
        (j : ℕ) (l : Login) → IsPhase s j l (done true) → IsPhase s' j l (done true)
    IsPhase-Moves_done j l k =
        subst
          (λ key.
            IsAuthentic s' l.name
              (compute_cache_hmac argon2_verify hash_password hmac key l.name l.password))
          (sym m.same_secret) (IsAuthentic-Moves l.name _ k)

    module _ (j : ℕ) (l : Login) (other : j ≢ i) where
      IsClaiming-Moves : (w : ClaimWork) → IsClaiming s j l w → IsClaiming s' j l w
      IsClaiming-Moves w k = record {
        work = IsWork-Moves l w k.work;
        locked = (m.same_lock j other k.locked).0;
        unclaimed = rw (m.same_lock j other k.locked).1 k.unclaimed;
      }

      -- What holds of another login's phase holds after the step.
      pub IsPhase-Moves : (p : Phase) → IsPhase s j l p → IsPhase s' j l p
      IsPhase-Moves entered k = k
      IsPhase-Moves queued k = k
      IsPhase-Moves preparing k = k
      IsPhase-Moves (missed e) (found, on) = (rw m.same_entries found, on)
      IsPhase-Moves hashing (e, found, on) = (e, rw m.same_entries found, on)
      IsPhase-Moves (hashed w) k = IsWork-Moves l w k
      IsPhase-Moves (gated w) k = IsWork-Moves l w k
      IsPhase-Moves (admitted w) k = IsWork-Moves l w k
      IsPhase-Moves (committing w) k = IsWork-Moves l w k
      IsPhase-Moves (stat w) k = IsClaiming-Moves w k
      IsPhase-Moves (persisting w fallback_users) k = IsClaiming-Moves w k
      IsPhase-Moves (publishing w) k = IsClaiming-Moves w k
      IsPhase-Moves (rearming w) k = IsClaiming-Moves w k
      IsPhase-Moves (adopting w h) (k, chosen) = (IsClaiming-Moves w k, chosen)
      IsPhase-Moves (caching w) (k, locked, published) =
          let (locked', same) = m.same_lock j other locked in
          (IsWork-Moves l w k, locked', rw same published)
      IsPhase-Moves (reverifying h) k = IsCommitted-Moves l.name h k
      IsPhase-Moves (verifying h) k = IsCommitted-Moves l.name h k
      IsPhase-Moves (done true) k = IsPhase-Moves_done j l k
      IsPhase-Moves (done false) k = k
      IsPhase-Moves panicked k = k
