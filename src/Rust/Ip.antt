-- ===== src/Rust/Ip.antt =====
-- `Display` of `Ipv4Addr` and `Ipv6Addr`, from the address's bytes.
use resocks.Base.{
  ℕ, zero, suc, ◌+◌, ◌-◌, ◌*◌, ◌/◌, ◌%◌, Bool, true, false, ◌&&◌, List, [], ◌∷◌, ◌++◌, take, drop,
  ltb, ◌==◌, if◌then◌else◌,
}
use resocks.Rust.Number.{decimal}
use resocks.Rust.Text.{Bytes, codes}

unfoldable pub display_ipv4 : Bytes → Bytes
display_ipv4 [] = []
display_ipv4 (x ∷ []) = decimal x
display_ipv4 (x ∷ y ∷ xs) = decimal x ++ b'.' ∷ display_ipv4 (y ∷ xs)

hex_digit : ℕ → ℕ
hex_digit d = if ltb d 10 then b'0' + d else b'a' + (d - 10)

-- Four digits are enough for a segment.
hex_onto : ℕ → ℕ → Bytes → Bytes
unfolding hex_digit
hex_onto zero n rest = rest
hex_onto (suc k) n rest =
    let longer = hex_onto k (n / 16) (hex_digit (n % 16) ∷ rest) in
    if ltb n 16 then hex_digit n ∷ rest else longer

segments : Bytes → List ℕ
segments (a ∷ b ∷ rest) = (a * 256 + b) ∷ segments rest
segments _ = []

display_segments : List ℕ → Bytes
unfolding hex_onto
display_segments [] = []
display_segments (x ∷ []) = hex_onto 4 x []
display_segments (x ∷ y ∷ xs) = hex_onto 4 x [] ++ b':' ∷ display_segments (y ∷ xs)

record Span : Type 0 where
  start : ℕ
  len : ℕ

-- The first of the longest runs of zeros, from the index `i` on.
longest_run : Span → Span → ℕ → List ℕ → Span
longest_run current longest i [] = longest
longest_run current longest i (x ∷ xs) =
    let start = if current.len == 0 then i else current.start in
    let grown : Span = record { start = start; len = suc current.len } in
    if x == 0
    then longest_run grown (if ltb longest.len grown.len then grown else longest) (suc i) xs
    else longest_run (record { start = 0; len = 0 }) longest (suc i) xs

display_compressed : List ℕ → Bytes
unfolding longest_run display_segments
display_compressed xs =
    let run = longest_run (record { start = 0; len = 0 }) (record { start = 0; len = 0 }) 0 xs in
    if ltb 1 run.len
    then display_segments (take run.start xs)
      ++ b':' ∷ b':' ∷ display_segments (drop (run.start + run.len) xs)
    else display_segments xs

all_zero : List ℕ → Bool
all_zero [] = true
all_zero (x ∷ xs) = x == 0 && all_zero xs

-- `to_ipv4_mapped`.
is_mapped : List ℕ → Bool
unfolding all_zero
is_mapped (a ∷ b ∷ c ∷ d ∷ e ∷ f ∷ _) = all_zero (a ∷ b ∷ c ∷ d ∷ e ∷ []) && (f == 0xFFFF)
is_mapped _ = false

pub display_ipv6 : Bytes → Bytes
unfolding segments display_compressed is_mapped
display_ipv6 ip =
    if is_mapped (segments ip)
    then codes "::ffff:" ++ display_ipv4 (drop 12 ip)
    else display_compressed (segments ip)
