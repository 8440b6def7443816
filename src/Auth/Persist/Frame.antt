-- ===== src/Auth/Persist/Frame.antt =====
-- `persist_claim`: what it does to the users file, on every branch.
use resocks.Base.{
  ◌≡◌, ◌≢◌, ◌⊎◌, refl, sym, ◌∙◌, subst, ap, inl, inr, Option, none, some, List, [], ◌∷◌, Bool-cases,
  Option-cases,
}
use resocks.Auth.Persist.{
  Disk, Commit, committed, not_replaced, replaced_unflushed, write_atomic, ClaimPersist, written,
  disk_hash_changed, failed, Answers, outcome, find_user, write_hash, merge_claim, persist_claim,
}
use resocks.Auth.State.{User, init_hash}
use resocks.Rust.Text.{Bytes, bytes_eq, bytes_eq_refl, bytes_eq_sound}

abbrev pub IsChanged : ClaimPersist → Type 0
IsChanged written = Unit
IsChanged (disk_hash_changed h) = h ≢ init_hash
IsChanged failed = Unit

outcome-IsChanged :
    (c : Commit) (d : Disk) (users : List User) → IsChanged (outcome (write_atomic c d users)).1
unfolding write_atomic
outcome-IsChanged committed d users = tt
outcome-IsChanged not_replaced d users = tt
outcome-IsChanged replaced_unflushed d users = tt

module _ (a : Answers) (name new_hash : Bytes) where
  merge_claim-IsChanged : (users : List User) → IsChanged (merge_claim a users name new_hash).1
  unfolding merge_claim
  merge_claim-IsChanged users = elim (Option-cases (find_user name users)) [
    | inl nobody ↦ rw (nobody, merge_claim) tt
    | inr (u, there) ↦ elim (Bool-cases (bytes_eq u.hash init_hash)) [
      | inl fresh ↦ rw (there, fresh, merge_claim) (outcome-IsChanged a.commit (some users) _)
      | inr taken ↦ rw (there, taken, merge_claim) (λ e. let same = bytes_eq_refl u.hash in cc)
    ]
  ]

  pub persist_claim-IsChanged :
      (disk : Disk) (fallback_users : Option (List User))
      → IsChanged (persist_claim a disk name new_hash fallback_users).1
  unfolding persist_claim
  persist_claim-IsChanged none none = elim (Bool-cases a.acquires) [
    | inl got ↦ rw (got, persist_claim) tt
    | inr busy ↦ rw (busy, persist_claim) tt
  ]
  persist_claim-IsChanged none (some users) = elim (Bool-cases a.acquires) [
    | inl got ↦ rw (got, persist_claim) (outcome-IsChanged a.commit none users)
    | inr busy ↦ rw (busy, persist_claim) tt
  ]
  persist_claim-IsChanged (some users) fallback_users = elim (Bool-cases a.acquires) [
    | inr busy ↦ rw (busy, persist_claim) tt
    | inl got ↦ elim (Bool-cases a.reads) [
      | inl reads ↦ rw (got, reads, persist_claim) (merge_claim-IsChanged users)
      | inr unreadable ↦ rw (got, unreadable, persist_claim) tt
    ]
  ]

find_user-write_hash_other :
    (m name h : Bytes) (users : List User)
    → m ≢ name
    → find_user m (write_hash name h users) ≡ find_user m users
unfolding find_user write_hash
find_user-write_hash_other m name h [] other = refl
find_user-write_hash_other m name h (u ∷ us) other = elim (Bool-cases (bytes_eq u.name name)) [
  | inr differs ↦ rw (differs, write_hash) (rw (find_user-write_hash_other m name h us other) refl)
  | inl same ↦ elim (Bool-cases (bytes_eq u.name m)) [
    | inl also ↦
        let is_name = bytes_eq_sound u.name name same in
        let is_m = bytes_eq_sound u.name m also in absurd (other cc)
    | inr misses ↦ rw (same, write_hash) (rw (misses, find_user) refl)
  ]
]

find_user-write_hash :
    (name h : Bytes) (users : List User) (u : User)
    → find_user name users ≡ some u
    → find_user name (write_hash name h users) ≡ some (record u { hash = h })
unfolding find_user write_hash
find_user-write_hash name h [] u there = cc
find_user-write_hash name h (v ∷ us) u there = elim (Bool-cases (bytes_eq v.name name)) [
  | inl same ↦
      let is_u : some v ≡ some u = rw same at there in
      let v_u : v ≡ u = cc in
      rw (same, write_hash)
        (rw (same, find_user)
          (ap {A = User} {B = Option User} (λ x. some (record x { hash = h })) v_u))
  | inr differs ↦
      rw (differs, write_hash)
        (rw (differs, find_user) (find_user-write_hash name h us u (rw differs at there)))
]

module _ (a : Answers) (name new_hash : Bytes) (users : List User) where
  -- What the call makes of a file with these users, on each of its answers.
  abbrev pub Merges : Disk × ClaimPersist → Type 0
  Merges (disk, written) =
      (disk ≡ some (write_hash name new_hash users))
      × ((u : User) × (find_user name users ≡ some u) × (u.hash ≡ init_hash))
  Merges (disk, disk_hash_changed h) =
      (disk ≡ some users)
      × ((u : User) × (find_user name users ≡ some u) × (u.hash ≡ h) × (h ≢ init_hash))
  Merges (disk, failed) =
      (disk ≡ some users)
      ⊎ ((disk ≡ some (write_hash name new_hash users))
          × ((u : User) × (find_user name users ≡ some u) × (u.hash ≡ init_hash)))

  outcome-Merges :
      (c : Commit) (u : User)
      → find_user name users ≡ some u
      → u.hash ≡ init_hash
      → Merges (outcome (write_atomic c (some users) (write_hash name new_hash users)))
  unfolding write_atomic
  outcome-Merges committed u there fresh = (refl, (u, there, fresh))
  outcome-Merges not_replaced u there fresh = inl refl
  outcome-Merges replaced_unflushed u there fresh = inr (refl, (u, there, fresh))

  merge_claim-Merges : Merges (merge_claim a users name new_hash)
  unfolding merge_claim
  merge_claim-Merges = elim (Option-cases (find_user name users)) [
    | inl nobody ↦ rw (nobody, merge_claim) (inl refl)
    | inr (u, there) ↦ elim (Bool-cases (bytes_eq u.hash init_hash)) [
      | inl fresh ↦
          rw (there, fresh, merge_claim)
            (outcome-Merges a.commit u there (bytes_eq_sound u.hash init_hash fresh))
      | inr taken ↦
          rw (there, taken, merge_claim)
            (refl, (u, there, refl, λ e. let same = bytes_eq_refl u.hash in cc))
    ]
  ]

  -- On an existing file, `persist_claim` says that the claim is written only when the file then
  -- differs in nothing but the new hash of an account that had none; it says that the hash has
  -- changed, with that hash, only when an account has one and the file is as before; and where it
  -- fails, the file is one of these two.
  pub persist_claim-Merges :
      (fallback_users : Option (List User))
      → Merges (persist_claim a (some users) name new_hash fallback_users)
  unfolding persist_claim
  persist_claim-Merges fallback_users = elim (Bool-cases a.acquires) [
    | inr busy ↦ rw (busy, persist_claim) (inl refl)
    | inl got ↦ elim (Bool-cases a.reads) [
      | inl reads ↦ rw (got, reads, persist_claim) merge_claim-Merges
      | inr unreadable ↦ rw (got, unreadable, persist_claim) (inl refl)
    ]
  ]

  module _ (m : Bytes) (u : User) (there : find_user m users ≡ some u)
      (safe : (m ≢ name) ⊎ (u.hash ≢ init_hash)) where
    abbrev Keeps : Disk → Type 0
    Keeps disk = (users' : List User) × (disk ≡ some users') × (find_user m users' ≡ some u)

    written-Keeps :
        (v : User)
        → find_user name users ≡ some v
        → v.hash ≡ init_hash
        → find_user m (write_hash name new_hash users) ≡ some u
    written-Keeps v found fresh = elim safe [
      | inl other ↦ find_user-write_hash_other m name new_hash users other ∙ there
      | inr taken ↦ elim (Bool-cases (bytes_eq m name)) [
        | inl same ↦
            let is_name = bytes_eq_sound m name same in
            let both = sym (subst (λ x. find_user x users ≡ some u) is_name there) ∙ found in
            let u_v : u ≡ v = cc in absurd (taken (ap {A = User} (λ x. x.hash) u_v ∙ fresh))
        | inr differs ↦
            let refuse : m ≢ name = λ e. let yes = bytes_eq_refl m in cc in
            find_user-write_hash_other m name new_hash users refuse ∙ there
      ]
    ]

    Merges-Keeps : (r : Disk × ClaimPersist) → Merges r → Keeps r.0
    Merges-Keeps (disk, written) (e, (v, found, fresh)) = (_, e, written-Keeps v found fresh)
    Merges-Keeps (disk, disk_hash_changed h) (e, _) = (users, e, there)
    Merges-Keeps (disk, failed) (inl e) = (users, e, there)
    Merges-Keeps (disk, failed) (inr (e, (v, found, fresh))) = (_, e, written-Keeps v found fresh)

    -- A claim keeps in the file every other user, and the claimed one, too, once its password is
    -- chosen: whatever the system answers, the name has the same user as before.
    pub persist_claim-keeps :
        (fallback_users : Option (List User))
        → (users' : List User) × ((persist_claim a (some users) name new_hash fallback_users).0
            ≡ some users')
          × (find_user m users' ≡ some u)
    persist_claim-keeps fallback_users = Merges-Keeps _ (persist_claim-Merges fallback_users)
