-- ===== src/Rating/Rng.antt =====
-- crates/resocks5-net/src/session/rating/rng.rs: splitmix64. The state is a `u64`; `from_os`, which
-- only seeds it from the clock and the thread, is left to the caller.
use Prim.Native.Nat.{bit_xor}
use resocks.Base.{ℕ, ◌+◌, ◌*◌, ◌/◌, ◌%◌, ◌^◌}
use resocks.Rating.Float.{Float}

abbrev pub u64_mod : ℕ
u64_mod = 2 ^ 64

-- The new state and the number drawn.
pub next_u64 : ℕ → ℕ × ℕ
next_u64 state =
    let state' = (state + 0x9E37_79B9_7F4A_7C15) % u64_mod in
    let a = bit_xor state' (state' / 2 ^ 30) * 0xBF58_476D_1CE4_E5B9 % u64_mod in
    let b = bit_xor a (a / 2 ^ 27) * 0x94D0_49BB_1331_11EB % u64_mod in
    (state', bit_xor b (b / 2 ^ 31))

pub next_f64 : (f : Float) → ℕ → ℕ × f.F
next_f64 f state =
    let (state', drawn) = next_u64 state in
    (state', f.div (f.of_u64 (drawn / 2 ^ 11)) (f.of_u64 (2 ^ 53)))
