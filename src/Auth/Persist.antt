-- ===== src/Auth/Persist.antt =====
-- crates/resocks5/src/auth/state/claim.rs and config/users/users_file: `persist_claim` on what the
-- file holds, and `write_atomic`. What the system answers to the calls on files is an argument.
use resocks.Base.{ℕ, ◌≡◌, Bool, true, false, not, Option, none, some, List, [], ◌∷◌, if◌then◌else◌}
use resocks.Auth.State.{User, init_hash}
use resocks.Rust.Text.{Bytes, bytes_eq}
pub mod Frame

-- The users file: `none` where there is none.
abbrev pub Disk : Type 0
Disk = Option (List User)

-- How far `write_atomic` comes: all is written and flushed, or it fails before the rename, or only
-- behind it, when the parent's directory is flushed.
pub data Commit : Type 0 where
  committed not_replaced replaced_unflushed : Commit

unfoldable pub write_atomic : Commit → Disk → List User → Disk × Bool
write_atomic committed disk users = (some users, true)
write_atomic not_replaced disk users = (disk, false)
write_atomic replaced_unflushed disk users = (some users, false)

pub data ClaimPersist : Type 0 where
  written : ClaimPersist
  disk_hash_changed : Bytes → ClaimPersist
  failed : ClaimPersist

-- What the system answers: a salt, the lock of the users file, its contents, and the write.
pub record Answers : Type 0 where
  pub salt : Option Bytes
  pub acquires : Bool
  pub reads : Bool
  pub commit : Commit

abbrev pub outcome : Disk × Bool → Disk × ClaimPersist
outcome (disk, true) = (disk, written)
outcome (disk, false) = (disk, failed)

-- The first user of the name.
unfoldable pub find_user : Bytes → List User → Option User
find_user name [] = none
find_user name (u ∷ us) = if bytes_eq u.name name then some u else find_user name us

-- The list with another hash for that user.
unfoldable pub write_hash : Bytes → Bytes → List User → List User
write_hash name h [] = []
write_hash name h (u ∷ us) =
    if bytes_eq u.name name then record u { hash = h } ∷ us else u ∷ write_hash name h us

unfoldable pub merge_claim : Answers → List User → Bytes → Bytes → Disk × ClaimPersist
unfolding write_atomic find_user write_hash
merge_claim a users name new_hash = elim (find_user name users) [
  | none ↦ (some users, failed)
  | some u ↦
      if not (bytes_eq u.hash init_hash)
      then (some users, disk_hash_changed u.hash)
      else outcome (write_atomic a.commit (some users) (write_hash name new_hash users))
]

unfoldable pub persist_claim :
    Answers → Disk → Bytes → Bytes → Option (List User) → Disk × ClaimPersist
unfolding merge_claim write_atomic
persist_claim a disk name new_hash fallback_users =
    if not a.acquires then (disk, failed) else elim disk [
      | none ↦ elim fallback_users [
        | none ↦ (none, failed)
        | some users ↦ outcome (write_atomic a.commit none users)
      ]
      | some users ↦ if not a.reads then (some users, failed) else merge_claim a users name new_hash
    ]
