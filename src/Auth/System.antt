-- ===== src/Auth/System.antt =====
-- crates/resocks5/src/auth/state: any number of logins at once on one `AuthState`, while other
-- processes edit the users file and clients go away.
use resocks.Base.{ℕ, Bool, true, false, Option, none, some, List, [], ◌∷◌, ◌++◌, get_elem?, set}
use resocks.Auth.Login.{
  Phase, entered, queued, gated, admitted, reverifying, done, Login, World, advance,
}
use resocks.Auth.Persist.{Disk, Answers}
use resocks.Rust.Collections.{remove_entry}
use resocks.Rust.Text.{Bytes}
pub mod Sound
pub mod Safe
pub mod Slots
pub mod Holders
pub mod Live
pub mod Deadlock

pub record Task : Type 0 where
  pub login : Login
  pub phase : Phase

pub record System : Type 0 where
  pub world : World
  pub tasks : List Task

-- A call of `verify_async`, a step of the login with this number, the end of its connection, and an
-- edit of the users file by another process.
pub data Event : Type 0 where
  call : Bytes → Bytes → Event
  step : ℕ → Answers → Event
  disconnect : ℕ → Event
  edit : Disk → Event

-- The future is dropped at an await: a wait ends, and the gate that it holds is free. A closure that
-- runs goes on to its end, and the wait behind it is where the future ends.
unfoldable pub drop_future : World → Phase → World × Phase
drop_future s entered = (s, done false)
drop_future s queued = (s, done false)
drop_future s (gated w) = (s, done false)
drop_future s (admitted w) = (
  record s { auth = record s.auth { claim_gates = remove_entry w.name s.auth.claim_gates } },
  done false,
)
drop_future s (reverifying h) = (s, done false)
drop_future s p = (s, p)

-- The task with this number is as far as the result says.
abbrev pub put : System → ℕ → Login → World × Phase → System
put sys i l (s, p) = record { world = s; tasks = set sys.tasks i (record { login = l; phase = p }) }

module _ (argon2_verify : Bytes → Bytes → Bool) (hash_password : Bytes → Bytes → Option Bytes)
    (hmac : Bytes → Bytes → Bytes) where
  -- The step of a task, if there is one of this number.
  abbrev pub step_task : System → ℕ → Answers → Option Task → System
  step_task sys i a none = sys
  step_task sys i a (some t) =
      put sys i t.login (advance argon2_verify hash_password hmac i a sys.world t.login t.phase)

  abbrev pub drop_task : System → ℕ → Option Task → System
  drop_task sys i none = sys
  drop_task sys i (some t) = put sys i t.login (drop_future sys.world t.phase)

  abbrev pub happens : System → Event → System
  happens sys (call name password) = record sys {
    tasks =
        sys.tasks
        ++ record { login = record { name = name; password = password }; phase = entered } ∷ [];
  }
  happens sys (step i a) = step_task sys i a (get_elem? sys.tasks i)
  happens sys (disconnect i) = drop_task sys i (get_elem? sys.tasks i)
  happens sys (edit disk) = record sys { world = record sys.world { disk = disk } }

  abbrev pub run : System → List Event → System
  run sys [] = sys
  run sys (e ∷ es) = run (happens sys e) es
