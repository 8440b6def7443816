-- ===== src/Auth/State.antt =====
-- crates/resocks5/src/auth/state/mod.rs: `AuthState`, `build` and the checks that take no password.
-- A lock and a semaphore are here what they hold: the login that holds a lock, and the permits that
-- are free.
use resocks.Base.{
  ℕ, zero, suc, ◌+◌, ◌≡◌, Bool, true, false, ◌&&◌, Option, none, some, List, [], ◌∷◌, get_elem?,
  set, if◌then◌else◌,
}
use resocks.Clients.Compile.{compile_allowed_clients}
use resocks.Clients.{AllowedClients, IpAddr, matches}
use resocks.Rust.Collections.{lookup, insert_entry}
use resocks.Rust.Text.{Bytes, codes, bytes_eq}
pub mod Hashes
pub mod Build

pub record User : Type 0 where
  pub name : Bytes
  pub hash : Bytes
  pub is_enabled : Bool
  pub direct : Bool
  pub allowed_clients : Option Bytes

-- The sentinel of an account whose password is not chosen yet.
abbrev pub init_hash : Bytes
init_hash = codes "init"

pub record UserEntry : Type 0 where
  pub index : ℕ
  pub enabled : Bool
  pub direct : Bool
  pub allowed : Option AllowedClients

pub record AuthState : Type 0 where
  pub users : List User
  pub claim_lock : Option ℕ
  pub entries : List (Bytes × UserEntry)
  pub verify_slots : ℕ
  pub claim_slots : ℕ
  pub claim_gates : List (Bytes × ℕ)
  pub allow_anonymous : Bool
  pub server_secret : Bytes
  pub cache : List (Bytes × Bytes)

-- `users[idx].hash`; `none` is a panic.
abbrev pub hash_of : Option User → Option Bytes
hash_of none = none
hash_of (some u) = some u.hash

abbrev pub hash_at : List User → ℕ → Option Bytes
hash_at users idx = hash_of (get_elem? users idx)

abbrev pub with_hash : Option User → Bytes → List User → ℕ → List User
with_hash none h users idx = users
with_hash (some u) h users idx = set users idx (record u { hash = h })

-- `users[idx].hash = h`, of an index that is in range.
abbrev pub set_hash : List User → ℕ → Bytes → List User
set_hash users idx h = with_hash (get_elem? users idx) h users idx

abbrev pub if_enabled : Option UserEntry → Option UserEntry
if_enabled none = none
if_enabled (some e) = if e.enabled then some e else none

-- `entries.get(name).filter(|u| u.enabled)`.
unfoldable pub enabled_entry : List (Bytes × UserEntry) → Bytes → Option UserEntry
unfolding lookup
enabled_entry entries name = if_enabled (lookup name entries)

-- `none` is a rule that does not compile.
abbrev pub compile_rule : Option Bytes → Option (Option AllowedClients)
compile_rule none = some none
compile_rule (some spec) = elim (compile_allowed_clients spec) [
  | none ↦ none
  | some c ↦ some (some c)
]

-- `entries.entry(name).or_insert(entry)`.
abbrev pub or_insert : Bytes → UserEntry → List (Bytes × UserEntry) → List (Bytes × UserEntry)
unfolding lookup insert_entry
or_insert name entry entries = elim (lookup name entries) [
  | some _ ↦ entries
  | none ↦ insert_entry name entry entries
]

-- The loop of `build`, at the user with this index.
unfoldable pub index_users :
    ℕ → List User → List (Bytes × UserEntry) → Option (List (Bytes × UserEntry))
index_users index [] entries = some entries
index_users index (u ∷ us) entries = elim (compile_rule u.allowed_clients) [
  | none ↦ none
  | some allowed ↦ index_users (suc index) us (
      or_insert u.name
        (record { index = index; enabled = u.is_enabled; direct = u.direct; allowed = allowed })
        entries)
]

-- With the secret that the system draws, and as many workers as it has.
unfoldable pub build : Bool → List User → Bytes → ℕ → Option AuthState
unfolding index_users
build allow_anonymous users server_secret workers = elim (index_users 0 users []) [
  | none ↦ none
  | some entries ↦ some (record {
    users = users;
    claim_lock = none;
    entries = entries;
    verify_slots = workers;
    claim_slots = 2;
    claim_gates = [];
    allow_anonymous = allow_anonymous;
    server_secret = server_secret;
    cache = [];
  })
]

abbrev pub allows : Option AllowedClients → IpAddr → Bool
unfolding matches
allows none ip = true
allows (some r) ip = matches r ip

unfoldable pub client_ip_allowed : AuthState → Bytes → Option IpAddr → Bool
unfolding lookup
client_ip_allowed s name none = false
client_ip_allowed s name (some ip) = elim (lookup name s.entries) [
  | none ↦ false
  | some e ↦ e.enabled && allows e.allowed ip
]

unfoldable pub is_direct : AuthState → Bytes → Bool
unfolding lookup
is_direct s name = elim (lookup name s.entries) [ none ↦ false | some e ↦ e.enabled && e.direct ]
