-- ===== src/Auth/Login.antt =====
-- crates/resocks5/src/auth/state/verify.rs and claim.rs: `verify_async`, `verify_prepare`,
-- `prepare_claim` and `claim_commit`, cut at each access to what logins share. Taking a lock and the
-- check behind it are one step. The argon2 crate and the HMAC are parameters.
use resocks.Base.{
  ℕ, zero, suc, ◌+◌, ◌-◌, ◌≡◌, Bool, true, false, not, Option, none, some, List, [], ◌∷◌, ◌++◌,
  length, get_elem?, set, ltb, ◌==◌, if◌then◌else◌,
}
use resocks.Auth.Persist.{
  Disk, ClaimPersist, written, disk_hash_changed, failed, Answers, persist_claim,
}
use resocks.Auth.State.{User, UserEntry, AuthState, init_hash, hash_at, set_hash, enabled_entry}
use resocks.Rust.Collections.{lookup, insert_entry, remove_entry}
use resocks.Rust.Text.{Bytes, bytes_eq, is_empty}
pub mod Invariant
pub mod Steps
pub mod Progress
pub mod Cases

pub record ClaimWork : Type 0 where
  pub name : Bytes
  pub index : ℕ
  pub new_hash : Bytes

-- Where a login stands. From `preparing` to `hashed` and in `verifying` it holds a permit for hashing
-- (in `missed`, behind a look into the cache that found nothing, too), from `admitted` on
-- the gate of the account, from `committing` on a permit for claims, too, and behind it the lock.
pub data Phase : Type 0 where
  entered queued preparing : Phase
  missed : UserEntry → Phase
  hashing : Phase
  hashed gated admitted committing stat : ClaimWork → Phase
  persisting : ClaimWork → Option (List User) → Phase
  publishing caching rearming : ClaimWork → Phase
  adopting : ClaimWork → Bytes → Phase
  reverifying verifying : Bytes → Phase
  done : Bool → Phase
  panicked : Phase

pub record Login : Type 0 where
  pub name : Bytes
  pub password : Bytes

-- What the logins share.
pub record World : Type 0 where
  pub auth : AuthState
  pub disk : Disk

abbrev pub release_hashing : World → World
release_hashing s = record s { auth = record s.auth { verify_slots = suc s.auth.verify_slots } }

-- The end of the closure around `claim_commit`: its permit and the gate of the account.
abbrev pub release_claim : World → Bytes → World
release_claim s name = record s {
  auth = record s.auth {
    claim_slots = suc s.auth.claim_slots;
    claim_gates = remove_entry name s.auth.claim_gates;
  };
}

abbrev pub unlock : World → World
unlock s = record s { auth = record s.auth { claim_lock = none } }

abbrev pub publish : World → ℕ → Bytes → World
publish s idx h = record s { auth = record s.auth { users = set_hash s.auth.users idx h } }

abbrev pub remember : World → Bytes → Bytes → World
remember s name mac = record s {
  auth = record s.auth { cache = insert_entry name mac s.auth.cache };
}

abbrev pub after_persist : ClaimWork → ClaimPersist → Phase
after_persist w written = publishing w
after_persist w (disk_hash_changed h) = adopting w h
after_persist w failed = rearming w

abbrev pub unless_present : Disk → List User → Option (List User)
unless_present none users = some users
unless_present (some file) users = none

-- What waits while somebody holds a lock, and what goes on when it is free.
abbrev pub if_free {ℓ} : {A : Type ℓ} → Option ℕ → A → A → A
if_free (some holder) waits goes = waits
if_free none waits goes = goes

module _ (argon2_verify : Bytes → Bytes → Bool) (hash_password : Bytes → Bytes → Option Bytes)
    (hmac : Bytes → Bytes → Bytes) where
  -- `compute_hash`, with the salt that the system's random source gives, if it does.
  unfoldable pub compute_hash : Option Bytes → Bytes → Option Bytes
  compute_hash none password = none
  compute_hash (some salt) password = hash_password password salt

  unfoldable pub compute_cache_hmac : Bytes → Bytes → Bytes → Bytes
  compute_cache_hmac secret name password = hmac secret (name ++ 0 ∷ password)

  unfoldable pub cache_matches : AuthState → Bytes → Bytes → Bool
  unfolding lookup
  cache_matches s name candidate = elim (lookup name s.cache) [
    | none ↦ false
    | some cached ↦ bytes_eq cached candidate
  ]

  abbrev pub candidate : World → Login → Bytes
  candidate s l = compute_cache_hmac s.auth.server_secret l.name l.password

  unfoldable pub enter : World → Login → World × Phase
  unfolding enabled_entry cache_matches
  enter s l = elim (enabled_entry s.auth.entries l.name) [
    | none ↦ (s, done false)
    | some _ ↦ if cache_matches s.auth l.name (candidate s l) then (s, done true) else (s, queued)
  ]

  -- A permit for hashing, or the wait for one.
  unfoldable pub take_hashing : World → Phase → Phase → World × Phase
  take_hashing s waits goes =
      if s.auth.verify_slots == 0
      then (s, waits)
      else (record s { auth = record s.auth { verify_slots = s.auth.verify_slots - 1 } }, goes)

  unfoldable pub prepare : World → Login → World × Phase
  unfolding enabled_entry cache_matches
  prepare s l = elim (enabled_entry s.auth.entries l.name) [
    | none ↦ (release_hashing s, done false)
    | some e ↦
        if cache_matches s.auth l.name (candidate s l)
        then (release_hashing s, done true)
        else (s, missed e)
  ]

  -- The hash of the entry that the cache did not vouch for.
  unfoldable pub read_hash : World → UserEntry → World × Phase
  read_hash s e = elim (hash_at s.auth.users e.index) [
    | none ↦ (s, panicked)
    | some h ↦ if bytes_eq h init_hash then (s, hashing) else (s, verifying h)
  ]

  unfoldable pub hash_claim : Answers → World → Login → World × Phase
  unfolding compute_hash lookup
  hash_claim a s l =
      if is_empty l.password
      then (release_hashing s, done false)
      else if ltb 255 (length l.password)
      then (release_hashing s, done false)
      else elim (compute_hash a.salt l.password) [
        | none ↦ (release_hashing s, done false)
        | some h ↦ elim (lookup l.name s.auth.entries) [
          | none ↦ (release_hashing s, done false)
          | some e ↦ (s, hashed (record { name = l.name; index = e.index; new_hash = h }))
        ]
      ]

  -- `claimed_hash_if_any`, and what follows if the account is claimed, or is not.
  abbrev pub recheck : World → ClaimWork → (Bytes → World × Phase) → World × Phase → World × Phase
  recheck s w claimed unclaimed = elim (hash_at s.auth.users w.index) [
    | none ↦ (s, panicked)
    | some h ↦ if bytes_eq h init_hash then unclaimed else claimed h
  ]

  unfoldable pub check_hashed : World → ClaimWork → World × Phase
  check_hashed s w = recheck s w (λ h. (s, verifying h)) (release_hashing s, gated w)

  -- `claim_gate(&work.name).lock_owned()` by the login `i`, and the check behind it.
  unfoldable pub pass_gate : ℕ → World → ClaimWork → World × Phase
  unfolding lookup insert_entry
  pass_gate i s w =
      if_free (lookup w.name s.auth.claim_gates) (s, gated w)
        (recheck s w (λ h. (s, reverifying h))
          (
            record s {
              auth = record s.auth { claim_gates = insert_entry w.name i s.auth.claim_gates };
            },
            admitted w,
          ))

  unfoldable pub admit : World → ClaimWork → World × Phase
  admit s w = if s.auth.claim_slots == 0 then (s, admitted w) else (
    record s { auth = record s.auth { claim_slots = s.auth.claim_slots - 1 } },
    committing w,
  )

  -- `claim_lock.lock()` and the check behind it.
  unfoldable pub take_lock : ℕ → World → ClaimWork → World × Phase
  take_lock i s w =
      if_free s.auth.claim_lock (s, committing w)
        (recheck s w (λ h. (release_claim s w.name, reverifying h))
          (record s { auth = record s.auth { claim_lock = some i } }, stat w))

  -- The snapshot is only made where the file is missing.
  unfoldable pub take_snapshot : World → ClaimWork → World × Phase
  take_snapshot s w =
      (s, persisting w (unless_present s.disk (set_hash s.auth.users w.index w.new_hash)))

  unfoldable pub persist : Answers → World → ClaimWork → Option (List User) → World × Phase
  unfolding persist_claim
  persist a s w fallback_users =
      let (disk', p) = persist_claim a s.disk w.name w.new_hash fallback_users in
      (record s { disk = disk' }, after_persist w p)

  unfoldable pub verify_against_committed : World → Login → Bytes → World × Phase
  verify_against_committed s l h =
      if argon2_verify h l.password
      then (release_hashing (remember s l.name (candidate s l)), done true)
      else (release_hashing s, done false)

  -- The next step of the login `i`.
  unfoldable pub advance : ℕ → Answers → World → Login → Phase → World × Phase
  unfolding enter take_hashing prepare read_hash hash_claim check_hashed pass_gate admit take_lock
      take_snapshot persist verify_against_committed
  advance i a s l entered = enter s l
  advance i a s l queued = take_hashing s queued preparing
  advance i a s l preparing = prepare s l
  advance i a s l (missed e) = read_hash s e
  advance i a s l hashing = hash_claim a s l
  advance i a s l (hashed w) = check_hashed s w
  advance i a s l (gated w) = pass_gate i s w
  advance i a s l (admitted w) = admit s w
  advance i a s l (committing w) = take_lock i s w
  advance i a s l (stat w) = take_snapshot s w
  advance i a s l (persisting w fallback_users) = persist a s w fallback_users
  advance i a s l (publishing w) = (publish s w.index w.new_hash, caching w)
  advance i a s l (caching w) =
      (release_claim (unlock (remember s w.name (candidate s l))) w.name, done true)
  advance i a s l (adopting w h) =
      (release_claim (unlock (publish s w.index h)) w.name, reverifying h)
  advance i a s l (rearming w) =
      (release_claim (unlock (publish s w.index init_hash)) w.name, done false)
  advance i a s l (reverifying h) = take_hashing s (reverifying h) (verifying h)
  advance i a s l (verifying h) = verify_against_committed s l h
  advance i a s l (done b) = (s, done b)
  advance i a s l panicked = (s, panicked)
