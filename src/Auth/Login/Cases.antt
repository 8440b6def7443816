-- ===== src/Auth/Login/Cases.antt =====
-- `AuthState`: the branches of the steps that branch. A property of the result follows from the
-- property on each branch, where what the branch has tested is known.
use resocks.Base.{
  ℕ, ◌-◌, ◌≡◌, refl, ap, ◌∙◌, inl, inr, Bool, true, false, Option, none, some, length, ltb,
  Bool-cases, Option-cases, ◌==◌,
}
use resocks.Auth.Login.{
  ClaimWork, Phase, queued, missed, hashing, hashed, admitted, committing, verifying, done,
  panicked, Login, World, candidate, cache_matches, enter, take_hashing, prepare, read_hash,
  hash_claim, admit, verify_against_committed, recheck, compute_hash, if_free, release_hashing,
  remember,
}
use resocks.Auth.Persist.{Answers}
use resocks.Auth.State.{UserEntry, init_hash, hash_at, enabled_entry}
use resocks.Rust.Collections.{lookup}
use resocks.Rust.Text.{Bytes, bytes_eq, bytes_eq_sound, is_empty}

pub if_free-cases {ℓ κ} :
    {A : Type ℓ} (P : A → Type κ) (o : Option ℕ) {waits goes : A}
    → P waits
    → (o ≡ none → P goes)
    → P (if_free o waits goes)
if_free-cases P (some holder) waits goes = waits
if_free-cases P none waits goes = goes refl

module _ (argon2_verify : Bytes → Bytes → Bool) (hash_password : Bytes → Bytes → Option Bytes)
    (hmac : Bytes → Bytes → Bytes) (P : World × Phase → Type 0) (s : World) where
  abbrev is_cached : Login → Bool
  is_cached l =
      cache_matches argon2_verify hash_password hmac s.auth l.name
        (candidate argon2_verify hash_password hmac s l)

  pub enter-cases :
      (l : Login)
      → P (s, done false)
      → (is_cached l ≡ true → P (s, done true))
      → P (s, queued)
      → P (enter argon2_verify hash_password hmac s l)
  unfolding enter
  enter-cases l refuse accept goes = elim (Option-cases (enabled_entry s.auth.entries l.name)) [
    | inl refused ↦ rw (refused, enter) refuse
    | inr (e, known) ↦ elim (Bool-cases (is_cached l)) [
      | inl hit ↦ rw (known, hit, enter) (accept hit)
      | inr miss ↦ rw (known, miss, enter) goes
    ]
  ]

  pub prepare-cases :
      (l : Login)
      → P (release_hashing s, done false)
      → (is_cached l ≡ true → P (release_hashing s, done true))
      → ((e : UserEntry) → enabled_entry s.auth.entries l.name ≡ some e → P (s, missed e))
      → P (prepare argon2_verify hash_password hmac s l)
  unfolding prepare
  prepare-cases l refuse accept misses = elim (Option-cases (enabled_entry s.auth.entries l.name)) [
    | inl refused ↦ rw (refused, prepare) refuse
    | inr (e, known) ↦ elim (Bool-cases (is_cached l)) [
      | inl hit ↦ rw (known, hit, prepare) (accept hit)
      | inr miss ↦ rw (known, miss, prepare) (misses e known)
    ]
  ]

  pub read_hash-cases :
      (e : UserEntry)
      → (hash_at s.auth.users e.index ≡ none → P (s, panicked))
      → P (s, hashing)
      → ((h : Bytes)
          → hash_at s.auth.users e.index ≡ some h
          → bytes_eq h init_hash ≡ false
          → P (s, verifying h))
      → P (read_hash argon2_verify hash_password hmac s e)
  unfolding read_hash
  read_hash-cases e panics claims compares = elim (Option-cases (hash_at s.auth.users e.index)) [
    | inl outside ↦ rw (outside, read_hash) (panics outside)
    | inr (h, here) ↦ elim (Bool-cases (bytes_eq h init_hash)) [
      | inl fresh ↦ rw (here, fresh, read_hash) claims
      | inr taken ↦ rw (here, taken, read_hash) (compares h here taken)
    ]
  ]

  pub hash_claim-cases :
      (a : Answers) (l : Login)
      → P (release_hashing s, done false)
      → ((e : UserEntry) (h : Bytes)
          → compute_hash argon2_verify hash_password hmac a.salt l.password ≡ some h
          → lookup l.name s.auth.entries ≡ some e
          → P (s, hashed (record { name = l.name; index = e.index; new_hash = h })))
      → P (hash_claim argon2_verify hash_password hmac a s l)
  unfolding hash_claim
  hash_claim-cases a l refuse goes = elim (Bool-cases (is_empty l.password)) [
    | inl blank ↦ rw (blank, hash_claim) refuse
    | inr some_byte ↦ elim (Bool-cases (ltb 255 (length l.password))) [
      | inl long ↦ rw (some_byte, long, hash_claim) refuse
      | inr short ↦
          elim (Option-cases (compute_hash argon2_verify hash_password hmac a.salt l.password)) [
            | inl fails ↦ rw (some_byte, short, fails, hash_claim) refuse
            | inr (h, hashes) ↦ elim (Option-cases (lookup l.name s.auth.entries)) [
              | inl unknown ↦ rw (some_byte, short, hashes, unknown, hash_claim) refuse
              | inr (e, found) ↦
                  rw (some_byte, short, hashes, found, hash_claim) (goes e h hashes found)
            ]
          ]
    ]
  ]

  pub recheck-cases :
      (w : ClaimWork) (claimed : Bytes → World × Phase) (unclaimed : World × Phase)
      → (hash_at s.auth.users w.index ≡ none → P (s, panicked))
      → ((h : Bytes)
          → hash_at s.auth.users w.index ≡ some h
          → bytes_eq h init_hash ≡ false
          → P (claimed h))
      → (hash_at s.auth.users w.index ≡ some init_hash → P unclaimed)
      → P (recheck argon2_verify hash_password hmac s w claimed unclaimed)
  recheck-cases w claimed unclaimed panics compares goes =
      elim (Option-cases (hash_at s.auth.users w.index)) [
        | inl outside ↦ rw (outside, recheck) (panics outside)
        | inr (h, here) ↦ elim (Bool-cases (bytes_eq h init_hash)) [
          | inl fresh ↦
              rw (here, fresh, recheck) (goes (here ∙ ap some (bytes_eq_sound h init_hash fresh)))
          | inr taken ↦ rw (here, taken, recheck) (compares h here taken)
        ]
      ]

  pub take_hashing-cases :
      (waits goes : Phase)
      → P (s, waits)
      → ((s.auth.verify_slots == 0) ≡ false
          → P (record s { auth = record s.auth { verify_slots = s.auth.verify_slots - 1 } }, goes))
      → P (take_hashing argon2_verify hash_password hmac s waits goes)
  unfolding take_hashing
  take_hashing-cases waits goes k k' = elim (Bool-cases (s.auth.verify_slots == 0)) [
    | inl none_free ↦ rw (none_free, take_hashing) k
    | inr free ↦ rw (free, take_hashing) (k' free)
  ]

  pub admit-cases :
      (w : ClaimWork)
      → P (s, admitted w)
      → ((s.auth.claim_slots == 0) ≡ false
          → P (
            record s { auth = record s.auth { claim_slots = s.auth.claim_slots - 1 } },
            committing w,
          ))
      → P (admit argon2_verify hash_password hmac s w)
  unfolding admit
  admit-cases w k k' = elim (Bool-cases (s.auth.claim_slots == 0)) [
    | inl none_free ↦ rw (none_free, admit) k
    | inr free ↦ rw (free, admit) (k' free)
  ]

  pub verify-cases :
      (l : Login) (h : Bytes)
      → (argon2_verify h l.password ≡ true
          → P (
            release_hashing (remember s l.name (candidate argon2_verify hash_password hmac s l)),
            done true,
          ))
      → P (release_hashing s, done false)
      → P (verify_against_committed argon2_verify hash_password hmac s l h)
  unfolding verify_against_committed
  verify-cases l h accept refuse = elim (Bool-cases (argon2_verify h l.password)) [
    | inl right ↦ rw (right, verify_against_committed) (accept right)
    | inr wrong ↦ rw (wrong, verify_against_committed) refuse
  ]
