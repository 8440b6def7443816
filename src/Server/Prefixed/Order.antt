-- ===== src/Server/Prefixed/Order.antt =====
-- prefixed.rs: what the readers of a prefixed stream get, in any sequence of reads and writes.
use mathlib.Core.List.{append_assoc, append-nil}
use resocks.Base.{
  ℕ, zero, suc, ◌+◌, ◌≤◌, min, ◌≡◌, refl, ap, sym, ◌∙◌, inl, inr, ◌⊎◌, false, List, [], ◌∷◌, ◌++◌,
  length, drop, take-append-drop, length-drop, leb, ◌==◌, Bool-cases, arith,
}
use resocks.Rust.Text.{Bytes}
use resocks.Server.Prefixed.{
  Poll, pending, failed, filled, Stream, Prefixed, prefix_remaining, poll_read, Output, output,
}

-- A call of the reader or the writer.
pub data Call : Type 0 where
  read : ℕ → Call
  write : Output → Call

abbrev bytes_of : Poll → Bytes
bytes_of (filled bytes) = bytes
bytes_of pending = []
bytes_of failed = []

-- The second list is the first without some of the reads.
pub data Passes : List Call → List Call → Type 0 where
  passes_none : Passes [] []
  passed : {c : Call} {cs ds : List Call} → Passes cs ds → Passes (c ∷ cs) (c ∷ ds)
  served : {n : ℕ} {cs ds : List Call} → Passes cs ds → Passes (read n ∷ cs) ds

-- The reads with room for a byte.
abbrev pub roomy_reads : List Call → ℕ
roomy_reads [] = 0
roomy_reads (read n ∷ cs) = min n 1 + roomy_reads cs
roomy_reads (write o ∷ cs) = roomy_reads cs

drop-drop : {A : Type 0} (m n : ℕ) (xs : List A) → drop (m + n) xs ≡ drop n (drop m xs)
drop-drop zero n xs = let e : 0 + n ≡ n = omega arith in rw e refl
drop-drop (suc m) zero [] = let e : suc m + 0 ≡ suc m = omega arith in rw e refl
drop-drop (suc m) (suc n) [] = let e : suc m + suc n ≡ suc (m + suc n) = omega arith in rw e refl
drop-drop (suc m) n (x ∷ xs) =
    let e : suc m + n ≡ suc (m + n) = omega arith in rw e (drop-drop m n xs)

module _ (stream : Stream) where
  open stream use {S}

  -- The calls on the wrapped stream itself: what is left of it, and the bytes read.
  abbrev pub run_inner : List Call → S → S × Bytes
  run_inner [] s = (s, [])
  run_inner (read n ∷ cs) s =
      let (s', polled) = stream.poll_read s n in
      let (s2, rest) = run_inner cs s' in (s2, bytes_of polled ++ rest)
  run_inner (write o ∷ cs) s = run_inner cs (stream.output s o).0

  abbrev pub run : List Call → Prefixed stream → Prefixed stream × Bytes
  run [] p = (p, [])
  run (read n ∷ cs) p =
      let (p', polled) = poll_read stream p n in
      let (p2, rest) = run cs p' in (p2, bytes_of polled ++ rest)
  run (write o ∷ cs) p = run cs (output stream p o).0

  -- `prefix[pos..]` is in range.
  abbrev pub IsInside : Prefixed stream → Type 0
  IsInside p = p.pos ≤ length p.prefix

  -- A read from the prefix, or one of the wrapped stream behind it.
  abbrev ReadFrom : Prefixed stream → ℕ → Prefixed stream × Poll → Type 0
  ReadFrom p n (p', polled) =
      ((p'.inner ≡ p.inner)
        × (prefix_remaining stream p ≡ bytes_of polled ++ prefix_remaining stream p'))
      ⊎ ((prefix_remaining stream p ≡ [])
          × (prefix_remaining stream p' ≡ [])
          × (p'.inner ≡ (stream.poll_read p.inner n).0)
          × (polled ≡ (stream.poll_read p.inner n).1))

  empty-no_length : (xs : Bytes) → leb 1 (length xs) ≡ false → xs ≡ []
  empty-no_length [] h = refl
  empty-no_length (x ∷ xs) h = ground arith

  poll_read-ReadFrom : (p : Prefixed stream) (n : ℕ) → ReadFrom p n (poll_read stream p n)
  unfolding poll_read
  poll_read-ReadFrom p n =
      let rem = prefix_remaining stream p in
      elim (Bool-cases (leb 1 (length rem))) [
        | inl some_left ↦ elim (Bool-cases (n == 0)) [
          | inl no_room ↦ rw (some_left, no_room) (inl (refl, refl))
          | inr room ↦
              rw (some_left, room, drop-drop p.pos (min (length rem) n) p.prefix)
                (inl (refl, sym (take-append-drop (min (length rem) n) rem)))
        ]
        | inr none_left ↦
            let none : rem ≡ [] = empty-no_length rem none_left in
            rw none_left (inr (none, none, refl, refl))
      ]

  poll_read-IsInside :
      (p : Prefixed stream) (n : ℕ) → IsInside p → IsInside (poll_read stream p n).0
  unfolding poll_read
  poll_read-IsInside p n h = ground (arith, length-drop p.pos p.prefix)

  -- Any sequence of reads and writes acts on the wrapped stream like all of its writes and some of
  -- its reads do, and what is read, with the prefix bytes not yet served behind it, is the prefix
  -- bytes that were not served before, with what those reads give behind them.
  pub run-in_order :
      (cs : List Call) (p : Prefixed stream)
      → IsInside p
      → (ds : List Call) × Passes cs ds
        × ((run cs p).0.inner ≡ (run_inner ds p.inner).0)
        × ((run cs p).1 ++ prefix_remaining stream (run cs p).0
            ≡ prefix_remaining stream p ++ (run_inner ds p.inner).1)
        × IsInside (run cs p).0
  unfolding output
  run-in_order [] p inside =
      ([], passes_none, refl, sym (append-nil (prefix_remaining stream p)), inside)
  run-in_order (write o ∷ cs) p inside =
      let (ds, less, same, order, inside') = run-in_order cs (output stream p o).0 inside in
      (write o ∷ ds, passed less, same, order, inside')
  run-in_order (read n ∷ cs) p inside =
      let p' = (poll_read stream p n).0 in
      let polled = (poll_read stream p n).1 in
      let (ds, less, same, order, inside') = run-in_order cs p' (poll_read-IsInside p n inside) in
      elim (poll_read-ReadFrom p n) [
        | inl (untouched, split) ↦ (
          ds,
          served less,
          same ∙ ap (λ s. (run_inner ds s).0) untouched,
          append_assoc (bytes_of polled) (run cs p').1 (prefix_remaining stream (run cs p').0)
              ∙ ap (◌++◌ (bytes_of polled)) order
              ∙ sym (
                  append_assoc (bytes_of polled) (prefix_remaining stream p')
                    (run_inner ds p'.inner).1)
              ∙ ap (λ b. b ++ (run_inner ds p'.inner).1) (sym split)
              ∙ ap (λ s. prefix_remaining stream p ++ (run_inner ds s).1) untouched,
          inside',
        )
        | inr (empty, empty', moved, given) ↦ (
          read n ∷ ds,
          passed less,
          same ∙ ap (λ s. (run_inner ds s).0) moved,
          append_assoc (bytes_of polled) (run cs p').1 (prefix_remaining stream (run cs p').0)
              ∙ ap (◌++◌ (bytes_of polled))
                  (order ∙ ap (λ b. b ++ (run_inner ds p'.inner).1) empty')
              ∙ ap (λ q. bytes_of q ++ (run_inner ds p'.inner).1) given
              ∙ ap (λ s. bytes_of (stream.poll_read p.inner n).1 ++ (run_inner ds s).1) moved
              ∙ ap (λ b. b ++ (run_inner (read n ∷ ds) p.inner).1) (sym empty),
          inside',
        )
      ]
