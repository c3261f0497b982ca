-- ===== src/Time/Tests.antt =====
-- Runs and instances of src/kernel/tsc.c and src/kernel/clock.c: a two gigahertz counter.
use pyrenis.Base.{
  ℕ, ◌≤◌, ◌*◌, ◌+◌, ◌/◌, ◌%◌, ◌^◌, ◌≡◌, refl, true, false, some, inr, List, [], ◌∷◌, map, arith,
}
use pyrenis.Time.Tsc.{
  TscState, Probe, ok, went_backwards, pm_timer_frequency, rate_from_span, span_to_nanoseconds,
  span_nanoseconds, calibrate, nanoseconds_per_second,
}
use pyrenis.Time.Tsc.Rate.{Settled, span_to_nanoseconds_exact, calibrate-Settled}
use pyrenis.Time.Clock
use pyrenis.Time.Clock.{ClockState, no_clock, tsc, monotonic_ns, monotonic_step, readings}
use pyrenis.Time.Clock.Monotone.{
  IsAscending, running_max, drops, exact_span, readings_lem, readings-IsAscending, steady_readings,
}
use pyrenis.Time.PmTimer
use pyrenis.Time.PmTimer.{
  PmState, counter_width_is_supported, mask_for_width, wait_begin, wait_step, pm_timer_read,
  after_poll, poll, settle_wait, start_poll, pm_timer_wait, pm_timer_ticks_to_nanoseconds,
  pm_timer_nanoseconds_to_ticks,
}
use pyrenis.Time.PmTimer.Convert.{pm_timer_nanoseconds_to_ticks-pm_timer_ticks_to_nanoseconds}

abbrev cold : TscState
cold = record { frequency_hz = 0; present = false; invariant = false; calibrated = false }

abbrev two_ghz : TscState
two_ghz = record {
  frequency_hz = 2_000_000_000;
  present = true;
  invariant = false;
  calibrated = true;
}

abbrev probe : Probe
probe = record {
  has_tsc = true;
  extended_root = 0x8000_0008;
  has_invariant = false;
  interrupts_on = false;
  pm_present = true;
  start = 1000;
  finish = 2_000_001_000;
  waited = some pm_timer_frequency;
}

abbrev unset : ClockState
unset = record {
  source = no_clock;
  origin = 0;
  last_reported_ns = 0;
  backward_steps = 0;
  started = false;
}

abbrev running : ClockState
running = record {
  source = tsc;
  origin = 1000;
  last_reported_ns = 0;
  backward_steps = 0;
  started = true;
}

-- The second value steps back.
abbrev jitter : List ℕ
jitter = 3000 ∷ 2000 ∷ 5001 ∷ []

rate_runs :
    rate_from_span 1000 2_000_001_000 pm_timer_frequency pm_timer_frequency
    ≡ (ok, some 2_000_000_000)
unfolding rate_from_span
rate_runs = refl

rate_backwards : (rate_from_span 2000 1000 pm_timer_frequency pm_timer_frequency).0 ≡ went_backwards
unfolding rate_from_span
rate_backwards = refl

readings_run : (readings two_ghz (3000 ∷ 2000 ∷ 5001 ∷ []) running).0 ≡ 1000 ∷ 1000 ∷ 2000 ∷ []
unfolding readings monotonic_ns monotonic_step span_nanoseconds span_to_nanoseconds
readings_run = refl

span_to_nanoseconds_exact_example :
    span_to_nanoseconds 3_000_000_001 2_000_000_000
    ≡ (3_000_000_001 * nanoseconds_per_second / 2_000_000_000) % 2 ^ 64
span_to_nanoseconds_exact_example =
    span_to_nanoseconds_exact 3_000_000_001 2_000_000_000 (omega arith) (omega arith)

calibrate-Settled_example : Settled probe cold (calibrate probe cold)
calibrate-Settled_example = calibrate-Settled probe cold

readings_lem_example :
    let spans = map (span_nanoseconds two_ghz 1000) jitter in
    ((readings two_ghz jitter running).0 ≡ running_max 0 spans)
    × ((readings two_ghz jitter running).1.backward_steps % 2 ^ 64 ≡ (0 + drops 0 spans) % 2 ^ 64)
readings_lem_example = readings_lem two_ghz jitter running refl

readings-IsAscending_example : IsAscending 0 (readings two_ghz (3000 ∷ 2000 ∷ []) running).0
readings-IsAscending_example = readings-IsAscending two_ghz (3000 ∷ 2000 ∷ []) running refl

steady_readings_example :
    ((readings two_ghz (3000 ∷ 5001 ∷ []) running).0
      ≡ map (exact_span two_ghz 1000) (3000 ∷ 5001 ∷ []))
    × ((readings two_ghz (3000 ∷ 5001 ∷ []) running).1.backward_steps % 2 ^ 64 ≡ 0)
unfolding Clock.start
steady_readings_example =
    steady_readings two_ghz refl (inr (omega arith, omega arith)) 1000 (3000 ∷ 5001 ∷ []) unset
      running refl (omega arith)

-- A counter of 24 bits that is about to wrap, and advances by ten between reads.
abbrev acpi_timer : PmState
acpi_timer = record { port = 0x608; counter_bits = 24; extended_address = false; present = true }

abbrev wrapping : ℕ → ℕ
wrapping n = 0xfffff0 + 10 * n

waits : pm_timer_wait 20 true 42 (λ n. wrapping n % 2 ^ 32) acpi_timer ≡ some (PmTimer.ok, some 50)
unfolding pm_timer_wait wait_begin start_poll settle_wait poll after_poll wait_step pm_timer_read
    counter_width_is_supported mask_for_width
waits = refl

pm_timer_nanoseconds_to_ticks-pm_timer_ticks_to_nanoseconds_example :
    let back = pm_timer_nanoseconds_to_ticks (pm_timer_ticks_to_nanoseconds 12_345_678) in
    (pm_timer_ticks_to_nanoseconds 12_345_678 ≡ 12_345_678 * 1_000_000_000 / 3_579_545)
    × (back ≤ 12_345_678)
    × (12_345_678 ≤ back + 1)
pm_timer_nanoseconds_to_ticks-pm_timer_ticks_to_nanoseconds_example =
    pm_timer_nanoseconds_to_ticks-pm_timer_ticks_to_nanoseconds 12_345_678 (omega arith)
