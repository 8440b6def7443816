-- ===== src/Tests/Auth.antt =====
-- The theorems on logins, with a hash that writes the password behind a mark, for an account whose
-- password is not chosen yet.
use resocks.Base.{
  ℕ, zero, suc, ◌+◌, ◌<◌, ◌≡◌, inl, refl, subst, Bool, true, false, Option, none, some, List, [],
  ◌∷◌, ◌++◌, get_elem?, arith,
}
use resocks.Auth.Login.Invariant.{IsCommitted, IsAuthentic}
use resocks.Auth.Login.Progress.{rank, advance-rank}
use resocks.Auth.Login.Steps.Claim.{Hashes}
use resocks.Auth.Login.{advance, candidate, done, persisting}
use resocks.Auth.Persist.Frame.{persist_claim-Merges, persist_claim-keeps, Merges}
use resocks.Auth.Persist.{Answers, committed, replaced_unflushed, persist_claim, find_user}
use resocks.Auth.State.Build.{build-first_user}
use resocks.Auth.State.{User, UserEntry, AuthState, init_hash, build}
use resocks.Auth.State
use resocks.Auth.System.Deadlock.{run-no_deadlock}
use resocks.Auth.System.Safe.{started, run-authenticates, run-IsCommitted}
use resocks.Auth.System.Slots.{total, claims, hashers}
use resocks.Auth.System.Slots.Permits.{run-permits}
use resocks.Auth.System.{Task, System, Event, call, step, disconnect, edit, run}
use resocks.Rust.Collections.{lookup, insert_entry}
use resocks.Rust.Text.{Bytes, codes, bytes_eq, bytes_eq_refl}

abbrev verifies : Bytes → Bytes → Bool
verifies h password = bytes_eq h (b'$' ∷ password)

abbrev hashes : Bytes → Bytes → Option Bytes
hashes password salt = some (b'$' ∷ password)

abbrev mac : Bytes → Bytes → Bytes
mac key text = key ++ text

law : Hashes verifies hashes mac
law password salt h e =
    let is_h : b'$' ∷ password ≡ h = cc in
    (
      subst (λ x. bytes_eq x (b'$' ∷ password) ≡ true) is_h (bytes_eq_refl (b'$' ∷ password)),
      λ f. cc,
    )

abbrev alice : User
alice = record {
  name = codes "alice";
  hash = init_hash;
  is_enabled = true;
  direct = false;
  allowed_clients = none;
}

abbrev bob : User
bob = record alice { name = codes "bob"; hash = codes "$b"; direct = true }

abbrev listed : List User
listed = alice ∷ bob ∷ []

abbrev server : AuthState
server = record {
  users = listed;
  claim_lock = none;
  entries =
      (codes "bob", record { index = 1; enabled = true; direct = true; allowed = none })
      ∷ (codes "alice", record { index = 0; enabled = true; direct = false; allowed = none })
      ∷ [];
  verify_slots = 1;
  claim_slots = 2;
  claim_gates = [];
  allow_anonymous = false;
  server_secret = codes "k";
  cache = [];
}

server_built : build false listed (codes "k") 1 ≡ some server
unfolding build State.index_users lookup insert_entry bytes_eq
server_built = refl

abbrev works : Answers
works = record { salt = some []; acquires = true; reads = true; commit = committed }

-- Alice chooses `pw`, alone, up to the step with this number.
abbrev steps : ℕ → List Event
steps zero = []
steps (suc n) = step 0 works ∷ steps n

abbrev first_login : ℕ → List Event
first_login n = call (codes "alice") (codes "pw") ∷ steps n

abbrev after : List Event → System
after es = run verifies hashes mac (started server (some listed)) es

abbrev let_in : Task
let_in = record {
  login = record { name = codes "alice"; password = codes "pw" };
  phase = done true;
}

alice_let_in : get_elem? (after (first_login 13)).tasks 0 ≡ some let_in
unfolding advance bytes_eq
alice_let_in = refl

abbrev claimed : Bytes
claimed = codes "$pw"

run-authenticates_example :
    IsAuthentic verifies hashes mac
      (run verifies hashes mac (after (first_login 13)) (edit none ∷ disconnect 0 ∷ [])).world
      (codes "alice")
      (candidate verifies hashes mac (started server (some listed)).world let_in.login)
run-authenticates_example =
    run-authenticates verifies hashes mac law false listed (codes "k") 1 server (some listed)
      server_built (first_login 13) (edit none ∷ disconnect 0 ∷ []) 0 let_in alice_let_in refl

abbrev writing : Task
writing = record let_in {
  phase = persisting (record { name = codes "alice"; index = 0; new_hash = claimed }) none;
}

alice_writing : get_elem? (after (first_login 10)).tasks 0 ≡ some writing
unfolding advance bytes_eq
alice_writing = refl

alice_claimed : IsCommitted (after (first_login 13)).world (codes "alice") claimed
unfolding advance bytes_eq
alice_claimed = record {
  entry = record { index = 0; enabled = true; direct = false; allowed = none };
  found = refl;
  is_enabled = refl;
  published = refl;
  chosen = λ e. cc;
}

run-IsCommitted_example :
    IsCommitted
      (run verifies hashes mac
        (after (first_login 13))
        (call (codes "alice") (codes "other") ∷ edit (some listed) ∷ [])).world
      (codes "alice")
      claimed
run-IsCommitted_example =
    run-IsCommitted verifies hashes mac law false listed (codes "k") 1 server (some listed)
      server_built (first_login 13) (call (codes "alice") (codes "other") ∷ edit (some listed) ∷ [])
      (codes "alice") claimed alice_claimed

run-permits_example :
    let sys = after (first_login 9) in
    (sys.world.auth.claim_slots + total claims sys.tasks ≡ 2)
    × (sys.world.auth.verify_slots + total hashers sys.tasks ≡ 1)
run-permits_example =
    run-permits verifies hashes mac law false listed (codes "k") 1 server (some listed) server_built
      (first_login 9)

run-no_deadlock_example :
    (j : ℕ) × (u : Task) × (get_elem? (after (first_login 10)).tasks j ≡ some u)
    × ((a : Answers)
        → rank (advance verifies hashes mac j a (after (first_login 10)).world u.login u.phase).1
          < rank u.phase)
run-no_deadlock_example =
    run-no_deadlock verifies hashes mac law false listed (codes "k") 1 server (some listed)
      server_built (first_login 10) 0 writing (omega arith) alice_writing refl

advance-rank_example :
    rank
      (advance verifies hashes mac 0 works
        (after (first_login 10)).world
        let_in.login
        writing.phase).1
    < rank writing.phase
advance-rank_example =
    advance-rank verifies hashes mac 0 works (after (first_login 10)).world let_in.login
      writing.phase refl

abbrev unflushed : Answers
unflushed = record works { commit = replaced_unflushed }

alice_found : find_user (codes "alice") listed ≡ some alice
unfolding find_user bytes_eq
alice_found = refl

bob_found : find_user (codes "bob") listed ≡ some bob
unfolding find_user bytes_eq
bob_found = refl

persist_claim-Merges_example :
    Merges unflushed
      (codes "alice")
      claimed
      listed
      (persist_claim unflushed (some listed) (codes "alice") claimed none)
persist_claim-Merges_example = persist_claim-Merges unflushed (codes "alice") claimed listed none

persist_claim-keeps_example :
    (users' : List User) × ((persist_claim unflushed (some listed) (codes "alice") claimed none).0
      ≡ some users')
    × (find_user (codes "bob") users' ≡ some bob)
persist_claim-keeps_example =
    persist_claim-keeps unflushed (codes "alice") claimed listed (codes "bob") bob bob_found
      (inl (λ e. cc)) none

build-first_user_example :
    (e : UserEntry) × (lookup (codes "alice") server.entries ≡ some e)
    × (get_elem? server.users e.index ≡ some alice)
    × (e.enabled ≡ true)
    × (e.direct ≡ false)
    × (State.compile_rule none ≡ some e.allowed)
build-first_user_example =
    build-first_user false listed (codes "k") 1 server server_built (codes "alice") alice
      alice_found
