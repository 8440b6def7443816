-- ===== src/Rating/Quarantine/Restart.antt =====
-- quarantine.rs, `snapshot` and `restore`: what a restart keeps.
use resocks.Base.{ℕ, ◌+◌, ◌≤◌, ◌≡◌, ◌≢◌, arith}
use resocks.Rating.Quarantine.History.{IsConsistent}
use resocks.Rating.Quarantine.{
  QuarantinePolicy, Cell, healthy, quarantined, is_state, state, snapshot, restore, deadline,
}

-- A tripped cell that is saved at one instant and restored into any slot at another shows, after
-- any wait, the same state, time left, trips and streak as the saved cell after the same wait. Its
-- time left is within the policy's maximum and the new clock's range.
pub snapshot-restore :
    (instant_max : ℕ) (c slot : Cell) (p : QuarantinePolicy) (saved loaded wait : ℕ)
    → IsConsistent p c
    → state c saved ≢ healthy
    → (snapshot c saved).left ≤ p.max
    → loaded + (snapshot c saved).left ≤ instant_max
    → snapshot
        (restore instant_max slot
          (is_state (snapshot c saved).state quarantined)
          (snapshot c saved).left
          (snapshot c saved).trips
          (snapshot c saved).consecutive
          loaded
          p)
        (loaded + wait)
      ≡ snapshot c (saved + wait)
unfolding snapshot restore deadline
snapshot-restore instant_max c slot p saved loaded wait v s l r = ground arith
