-- ===== src/Server/Prefixed/Tests.antt =====
-- The prefixed stream's theorems on a stream that reads back what is written.
use resocks.Base.{ℕ, ◌≡◌, List, [], ◌∷◌, ◌++◌, take, drop, arith, none}
use resocks.Rust.Text.{Bytes}
use resocks.Server.Socks.{IncomingRequest, http}
use resocks.Server.Prefixed.{
  Output, poll_write, poll_write_vectored, poll_flush, poll_shutdown, Stream, Prefixed, filled,
  prefix_remaining,
}
use resocks.Server.Prefixed.Order.{
  Call, read, write, Passes, run, run_inner, IsInside, run-in_order,
}

abbrev written : Output → Bytes
written (poll_write bytes) = bytes
written (poll_write_vectored []) = []
written (poll_write_vectored (bytes ∷ bufs)) = bytes
written poll_flush = []
written poll_shutdown = []

abbrev echo : Stream
echo = record {
  S = Bytes;
  Reported = ℕ;
  poll_read = λ s n. (drop n s, filled (take n s));
  output = λ s o. (s ++ written o, 0);
}

abbrev half_read : Prefixed echo
half_read = record { prefix = 1 ∷ 2 ∷ 3 ∷ 4 ∷ []; pos = 2; inner = 7 ∷ 8 ∷ [] }

abbrev calls : List Call
calls = read 0 ∷ read 1 ∷ write (poll_write (9 ∷ [])) ∷ read 5 ∷ write poll_flush ∷ read 5 ∷ []

run-in_order_example :
    (ds : List Call) × Passes calls ds
    × ((run echo calls half_read).0.inner ≡ (run_inner echo ds (7 ∷ 8 ∷ [])).0)
    × ((run echo calls half_read).1 ++ prefix_remaining echo (run echo calls half_read).0
        ≡ 3 ∷ 4 ∷ (run_inner echo ds (7 ∷ 8 ∷ [])).1)
    × IsInside echo (run echo calls half_read).0
run-in_order_example = run-in_order echo calls half_read (omega arith)

abbrev with_pipeline : IncomingRequest
with_pipeline = record {
  protocol = http;
  target = [];
  username = none;
  username_raw = none;
  credentials = none;
  pipeline = 3 ∷ 4 ∷ [];
}
