-- ===== src/Server/Wire.antt =====
-- server/mod.rs and credentials.rs: what a handshake reads, writes and asks, as a state.
pub mod Post
pub mod Succeeds
use resocks.Base.{
  ℕ, zero, suc, ◌+◌, ◌-◌, min, ◌*◌, ◌≡◌, refl, Bool, true, false, ◌&&◌, Option, none, some, List,
  [], ◌∷◌, ◌++◌, length, take, drop, ltb, leb, ◌==◌, if◌then◌else◌,
}
use resocks.Rust.Text.{Bytes}

pub record Credentials : Type 0 where
  pub username : Bytes
  pub password : Bytes
  pub username_raw : Option Bytes
  pub password_raw : Option Bytes

abbrev or_bytes : Option Bytes → Bytes → Bytes
or_bytes none s = s
or_bytes (some raw) s = raw

pub username_bytes : Credentials → Bytes
username_bytes c = or_bytes c.username_raw c.username

pub password_bytes : Credentials → Bytes
password_bytes c = or_bytes c.password_raw c.password

abbrev is_none : Option Bytes → Bool
is_none none = true
is_none (some s) = false

pub is_utf8 : Credentials → Bool
is_utf8 c = is_none c.username_raw && is_none c.password_raw

pub data ServerError : Type 0 where
  io protocol authentication header_too_large deadline closed : ServerError

-- A write on the stream, or a call of the authentication closure.
pub data Event : Type 0 where
  wrote : Bytes → Event
  asked : Credentials → Event

-- The bytes that the peer still sends and how many of them each `read` finds at least, the events
-- so far, the last first, the awaits that complete before the handshake is cut short, and how it is
-- then: by the deadline or by a transport failure.
pub record Wire : Type 0 where
  pub input : Bytes
  pub arrivals : List ℕ
  pub log : List Event
  pub polls : ℕ
  pub cut : ServerError

pub data Run (A : Type 0) : Type 0 where
  ok : A → Wire → Run A
  err : ServerError → Wire → Run A

abbrev pub Cmd : Type 0 → Type 0
Cmd A = Wire → Run A

abbrev pub pure : {A : Type 0} → A → Cmd A
pure = ok

abbrev pub fail : {A : Type 0} → ServerError → Cmd A
fail = err

module _ {A B : Type 0} where
  abbrev pub and_then : Run A → (A → Cmd B) → Run B
  and_then (ok a w) k = k a w
  and_then (err e w) k = err e w

  infixl 5 ◌>>=◌ ◌>>◌
  abbrev pub ◌>>=◌ : Cmd A → (A → Cmd B) → Cmd B
  m >>= k = λ w. and_then (m w) k

  abbrev pub ◌>>◌ : Cmd A → Cmd B → Cmd B
  m >> n = m >>= λ _. n

abbrev spend : Wire → Wire
spend w = record w { polls = w.polls - 1 }

-- An await that only takes time.
unfoldable pub poll : Cmd (Unit {0})
poll w = if w.polls == 0 then err w.cut w else ok tt (spend w)

-- `read_exact`, which fails on the end of the stream.
unfoldable pub read_exact : ℕ → Cmd Bytes
read_exact n w =
    if w.polls == 0
    then err w.cut w
    else if ltb (length w.input) n
    then err io (record (spend w) { input = [] })
    else ok (take n w.input) (record (spend w) { input = drop n w.input })

abbrev arrived : ℕ → List ℕ → ℕ
arrived limit [] = limit
arrived limit (n ∷ ns) = min limit (suc n)

abbrev later : List ℕ → List ℕ
later [] = []
later (n ∷ ns) = ns

-- `read`: some bytes, one at least unless the stream has ended.
unfoldable pub read : ℕ → Cmd Bytes
read limit w =
    if w.polls == 0
    then err w.cut w
    else ok (take (arrived limit w.arrivals) w.input) (record (spend w) {
      input = drop (arrived limit w.arrivals) w.input;
      arrivals = later w.arrivals;
    })

abbrev byte_at : ℕ → Bytes → ℕ
byte_at i [] = 0
byte_at zero (x ∷ xs) = x
byte_at (suc i) (x ∷ xs) = byte_at i xs

-- The byte at an index of a buffer of fixed size.
abbrev pub at : Bytes → ℕ → ℕ
at s i = byte_at i s

abbrev pub read_u8 : Cmd ℕ
read_u8 = do s ← read_exact 1; pure (at s 0)

abbrev pub read_u16 : Cmd ℕ
read_u16 = do s ← read_exact 2; pure (at s 0 * 256 + at s 1)

-- `write_all`; what the peer gets of a write that is cut short is not told.
unfoldable pub write_all : Bytes → Cmd (Unit {0})
write_all s w =
    let written = record w { log = wrote s ∷ w.log } in
    if w.polls == 0 then err w.cut written else ok tt (spend written)

abbrev pub flush : Cmd (Unit {0})
flush = poll

-- `write_all` and `flush` of a reply.
abbrev pub send : Bytes → Cmd (Unit {0})
send s = write_all s >> flush

-- The closure is called before its future is awaited.
unfoldable pub authenticate : (Credentials → Bool) → Credentials → Cmd Bool
authenticate verify c w =
    let called = record w { log = asked c ∷ w.log } in
    if w.polls == 0 then err w.cut called else ok (verify c) (spend called)

abbrev is_deadline : ServerError → Bool
is_deadline deadline = true
is_deadline _ = false

-- `phase`: an expired deadline is noticed before the operation is polled.
unfoldable pub phase : {A : Type 0} → Cmd A → Cmd A
phase operation w = if (w.polls == 0) && is_deadline w.cut then err deadline w else operation w
