-- ===== src/Tls/Records.antt =====
-- crates/resocks5-net/src/connect/tls/tls_records.rs: the walk over TLS records and the first
-- handshake message. A range into the walked buffer is modelled by the bytes it holds.
pub mod Assembly
pub mod Growth
pub mod Stream
use resocks.Base.{
  ℕ, zero, suc, ◌+◌, ◌-◌, ◌*◌, min, Bool, true, false, not, ◌&&◌, ◌||◌, Option, none, some, List,
  [], ◌∷◌, ◌++◌, length, take, drop, ltb, leb, ◌==◌, if◌then◌else◌,
}
use resocks.Rust.Text.{Bytes, is_empty}

-- `const HANDSHAKE`.
abbrev pub handshake : ℕ
handshake = 0x16

-- A record's type, its payload, clipped at the end of the buffer, and the bytes behind it.
pub record TlsRecord : Type 0 where
  pub content_type : ℕ
  pub payload : Bytes
  pub after : Bytes

-- `walk_records`, with so many payload bytes still to pass over.
unfoldable pub walk_from : ℕ → Bytes → List TlsRecord
walk_from zero (kind ∷ _ ∷ _ ∷ high ∷ low ∷ rest) =
    record {
      content_type = kind;
      payload = take (high * 256 + low) rest;
      after = drop (high * 256 + low) rest;
    }
    ∷ walk_from (high * 256 + low) rest
walk_from zero _ = []
walk_from (suc n) [] = []
walk_from (suc n) (_ ∷ xs) = walk_from n xs

unfoldable pub walk_records : Bytes → List TlsRecord
unfolding walk_from
walk_records bytes = walk_from 0 bytes

abbrev pub be_u24 : ℕ → ℕ → ℕ → ℕ
be_u24 a b c = a * 65536 + b * 256 + c

-- `4 + be_u24(&header[1..])`, once the four bytes of the header are there.
abbrev pub declared : Bytes → Option ℕ
declared (kind ∷ a ∷ b ∷ c ∷ []) = some (4 + be_u24 a b c)
declared _ = none

pub record HandshakePrefix : Type 0 where
  pub len : ℕ
  pub kind : Option ℕ
  pub complete : Bool
  pub extendable : Bool

-- The variables of the loop: the prefix, `header[..header_len]`, and the bytes at `next_header`.
pub record Scan : Type 0 where
  pub prefix : HandshakePrefix
  pub header : Bytes
  pub next_header : Bytes

abbrev pub first : Bytes → Option ℕ
first [] = none
first (x ∷ xs) = some x

-- One round, up to the test of the declared length. `header[0]` is written once, with the first
-- byte.
abbrev pub absorb : Scan → TlsRecord → Scan
absorb s r =
    let header = s.header ++ take (min (length r.payload) (4 - length s.header)) r.payload in
    record {
      prefix = record s.prefix {
        len = s.prefix.len + length r.payload;
        kind = if is_empty header then s.prefix.kind else first header;
      };
      header = header;
      next_header = r.after;
    }

abbrev pub satisfied : Scan → Option ℕ → Bool
satisfied s none = false
satisfied s (some n) = leb n s.prefix.len

abbrev pub finished : Scan → Option ℕ → Scan
finished s none = s
finished s (some n) = record s { prefix = record s.prefix { len = n; complete = true } }

pub scan : Scan → List TlsRecord → Scan
scan s [] = s
scan s (r ∷ rs) =
    let s' = absorb s r in
    let rest = scan s' rs in
    if not (r.content_type == handshake)
    then record s { prefix = record s.prefix { extendable = false } }
    else if satisfied s' (declared s'.header)
    then finished s' (declared s'.header)
    else rest

-- `data.get(0).is_some_and(|&kind| kind != HANDSHAKE)`.
abbrev pub another_kind : Bytes → Bool
another_kind [] = false
another_kind (kind ∷ _) = not (kind == handshake)

abbrev pub start : TlsRecord → Scan
start r = record {
  prefix = record { len = 0; kind = none; complete = false; extendable = true };
  header = [];
  next_header = r.after;
}

abbrev ended : Scan → HandshakePrefix
ended s = if another_kind s.next_header then record s.prefix { extendable = false } else s.prefix

pub prefix_of : List TlsRecord → Option HandshakePrefix
unfolding scan
prefix_of [] = none
prefix_of (r ∷ rs) =
    if not (r.content_type == handshake) then none else some (ended (scan (start r) (r ∷ rs)))

pub handshake_prefix : Bytes → Option HandshakePrefix
unfolding walk_records prefix_of
handshake_prefix bytes = prefix_of (walk_records bytes)

-- The loop of `message_bytes`, with so many bytes still to come.
pub gather : ℕ → List TlsRecord → Bytes
gather len [] = []
gather len (r ∷ rs) =
    let n = min (length r.payload) len in
    let rest = gather (len - n) rs in
    if len == n then take n r.payload else take n r.payload ++ rest

-- `none` is the panic of `expect`.
pub first_bytes : ℕ → List TlsRecord → Option Bytes
unfolding gather
first_bytes len [] = none
first_bytes len (r ∷ rs) =
    if leb len (length r.payload) then some (take len r.payload) else some (gather len (r ∷ rs))

pub message_bytes : Bytes → ℕ → Option Bytes
unfolding walk_records first_bytes
message_bytes bytes len = first_bytes len (walk_records bytes)

pub record AssembledHandshake : Type 0 where
  pub message : Bytes
  pub complete : Bool

pub assemble_handshake_message : Bytes → Option AssembledHandshake
unfolding handshake_prefix message_bytes
assemble_handshake_message bytes = elim (handshake_prefix bytes) [
  | none ↦ none
  | some prefix ↦ elim (message_bytes bytes prefix.len) [
    | none ↦ none
    | some message ↦ some (record { message = message; complete = prefix.complete })
  ]
]

abbrev pub kind_is_hello : Option ℕ → Bool
kind_is_hello none = false
kind_is_hello (some kind) = kind == 0x01

abbrev pub kind_may_be_hello : Option ℕ → Bool
kind_may_be_hello none = true
kind_may_be_hello (some kind) = kind == 0x01

pub client_hello_is_complete : Bytes → Bool
unfolding handshake_prefix
client_hello_is_complete bytes = elim (handshake_prefix bytes) [
  | none ↦ false
  | some prefix ↦ prefix.complete && kind_is_hello prefix.kind
]

-- `data.get(1).is_some_and(|&major| major != 0x03)`.
abbrev pub another_major : Bytes → Bool
another_major (_ ∷ major ∷ _) = not (major == 0x03)
another_major _ = false

pub client_hello_might_continue : Bytes → Bool
unfolding handshake_prefix
client_hello_might_continue bytes =
    if another_kind bytes || another_major bytes then false else elim (handshake_prefix bytes) [
      | none ↦ ltb (length bytes) 5
      | some prefix ↦ kind_may_be_hello prefix.kind && not prefix.complete && prefix.extendable
    ]
