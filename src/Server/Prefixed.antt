-- ===== src/Server/Prefixed.antt =====
-- crates/resocks5-net/src/server/prefixed.rs: a stream that serves the bytes read behind a header
-- before the stream it wraps, which is a parameter.
use resocks.Base.{
  ℕ, ◌+◌, min, Bool, List, [], ◌∷◌, ◌++◌, length, take, drop, leb, ◌==◌, if◌then◌else◌,
}
use resocks.Rust.Text.{Bytes}
use resocks.Server.Socks.{IncomingRequest}
pub mod Order
pub mod Tests

-- What `poll_read` reports; `filled` are the bytes that it puts behind those of the buffer.
pub data Poll : Type 0 where
  pending : Poll
  failed : Poll
  filled : Bytes → Poll

-- A call of one of the four methods of `AsyncWrite` that change the stream.
pub data Output : Type 0 where
  poll_write : Bytes → Output
  poll_write_vectored : List Bytes → Output
  poll_flush : Output
  poll_shutdown : Output

-- The wrapped stream: `poll_read` with the room left in the buffer, and the methods of
-- `AsyncWrite` with what they report.
pub record Stream : Type 1 where
  pub S : Type 0
  pub Reported : Type 0
  pub poll_read : S → ℕ → S × Poll
  pub output : S → Output → S × Reported

module _ (stream : Stream) where
  open stream use {S, Reported}

  pub record Prefixed : Type 0 where
    pub prefix : Bytes
    pub pos : ℕ
    pub inner : S

  unfoldable pub new : Bytes → S → Prefixed
  new prefix inner = record { prefix = prefix; pos = 0; inner = inner }

  -- `&prefix[pos..]`, which panics if `pos` is greater than the length: it never is.
  abbrev pub prefix_remaining : Prefixed → Bytes
  prefix_remaining p = drop p.pos p.prefix

  unfoldable pub into_parts : Prefixed → Bytes × S
  into_parts p = (drop p.pos p.prefix, p.inner)

  unfoldable pub poll_read : Prefixed → ℕ → Prefixed × Poll
  poll_read p room =
      let remaining = prefix_remaining p in
      let n = min (length remaining) room in
      let (inner', polled) = stream.poll_read p.inner room in
      if leb 1 (length remaining)
      then (if room == 0
          then (p, filled [])
          else (record p { pos = p.pos + n }, filled (take n remaining)))
      else (record p { inner = inner' }, polled)

  unfoldable pub output : Prefixed → Output → Prefixed × Reported
  output p o =
      let (inner', reported) = stream.output p.inner o in (record p { inner = inner' }, reported)

  unfoldable pub into_prefixed : IncomingRequest → S → Prefixed
  unfolding new
  into_prefixed r inner = new r.pipeline inner
