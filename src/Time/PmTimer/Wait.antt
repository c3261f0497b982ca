-- ===== src/Time/PmTimer/Wait.antt =====
-- What a wait of src/kernel/pm_timer.c measures.
use pyrenis.Base.{
  ℕ, suc, ◌-◌, ◌*◌, ◌%◌, ◌^◌, ◌≤◌, ◌<◌, ◌≡◌, Bool, true, Option, some, ◌==◌, ◌⊎◌, if◌then◌else◌,
}
use pyrenis.Time.PmTimer.{
  PmState, PmWait, Status, ok, stalled, wait_step, pm_timer_read, max_wait_ticks,
}

-- The period of a counter of the width.
abbrev pub period : ℕ → ℕ
period bits = if bits == 32 then 2 ^ 32 else 2 ^ 24

-- A present timer over a counter `count`, of which read `n` gets the low 32 bits. From one read to
-- the next it does not step back, and it advances by less than a period.
module _ (s : PmState) (present : s.present ≡ true) (count : ℕ → ℕ)
    (forward : (n : ℕ)
      → (count n ≤ count (suc n)) × (count (suc n) - count n < period s.counter_bits)) where
  abbrev register : ℕ → ℕ
  register n = count n % 2 ^ 32

  seen : ℕ → ℕ
  seen n = register n % period s.counter_bits % period s.counter_bits

  module _ (ticks : ℕ) (bounded : ticks ≤ max_wait_ticks) where
    -- The wait after `n` polls.
    record At (n : ℕ) (w : PmWait) : Type 0 where
      width : w.counter_bits ≡ s.counter_bits
      target_is : w.target ≡ ticks
      limit_is : w.poll_limit ≡ ticks * 64
      polls_are : w.polls ≡ n
      previous_is : w.previous ≡ seen n
      elapsed_is : w.elapsed ≡ count n - count 0
      short : w.elapsed < ticks

    abbrev next : ℕ → PmWait → Status × Bool × PmWait
    next n w = wait_step (pm_timer_read s (register (suc n))) w

    -- What the loop comes to: a complete wait of the right length, or a stall that is one.
    abbrev Measured : ℕ → Option (Status × PmWait) → Type 0
    Measured n p =
        ((k : ℕ) × (w : PmWait) × (p ≡ some (ok, w))
          × (w.elapsed ≡ count k - count 0)
          × (ticks ≤ w.elapsed)
          × (n < k)
          × (k ≤ ticks * 64))
        ⊎ ((w : PmWait) × (p ≡ some (stalled, w)) × (count (ticks * 64) - count 0 < ticks))

    begun : PmWait
    begun = record {
      target = ticks;
      elapsed = 0;
      polls = 0;
      poll_limit = ticks * 64;
      previous = seen 0;
      counter_bits = s.counter_bits;
    }
