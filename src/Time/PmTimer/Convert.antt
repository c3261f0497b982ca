-- ===== src/Time/PmTimer/Convert.antt =====
-- The conversions of src/kernel/pm_timer.c.
use pyrenis.Base.{ℕ, ◌+◌, ◌*◌, ◌/◌, ◌^◌, ◌≤◌, ◌<◌, ◌≡◌, arith}
use pyrenis.Time.PmTimer.{pm_timer_ticks_to_nanoseconds, pm_timer_nanoseconds_to_ticks}

to_nanoseconds_exact :
    (ticks : ℕ)
    → ticks < 2 ^ 55
    → pm_timer_ticks_to_nanoseconds ticks ≡ ticks * 1_000_000_000 / 3_579_545
unfolding pm_timer_ticks_to_nanoseconds
to_nanoseconds_exact ticks l = omega (arith, l)

to_ticks_exact :
    (nanoseconds : ℕ)
    → nanoseconds < 2 ^ 64
    → pm_timer_nanoseconds_to_ticks nanoseconds ≡ nanoseconds * 3_579_545 / 1_000_000_000
unfolding pm_timer_nanoseconds_to_ticks
to_ticks_exact nanoseconds l = omega (arith, l)

-- For fewer than 2^55 ticks, the conversion to nanoseconds is the exact quotient rounded down, and
-- converting back loses at most one tick and gains none.
pub pm_timer_nanoseconds_to_ticks-pm_timer_ticks_to_nanoseconds :
    (ticks : ℕ)
    → ticks < 2 ^ 55
    → let back = pm_timer_nanoseconds_to_ticks (pm_timer_ticks_to_nanoseconds ticks) in
      (pm_timer_ticks_to_nanoseconds ticks ≡ ticks * 1_000_000_000 / 3_579_545)
      × (back ≤ ticks)
      × (ticks ≤ back + 1)
pm_timer_nanoseconds_to_ticks-pm_timer_ticks_to_nanoseconds ticks l =
    let there = to_nanoseconds_exact ticks l in
    let back = to_ticks_exact (pm_timer_ticks_to_nanoseconds ticks) (omega (arith, there, l)) in
    (there, omega (arith, there, back), omega (arith, there, back))
