-- ===== src/Time/Tsc.antt =====
-- src/kernel/tsc.c: the calibrated counter and its conversion to nanoseconds.
-- What the processor and the ACPI timer answer during a calibration is a `Probe`.
pub mod Rate
use pyrenis.Base.{
  ℕ, ◌+◌, ◌-◌, ◌*◌, ◌/◌, ◌%◌, Bool, true, false, not, ◌||◌, Option, none, some, ltb, leb, ◌==◌,
  if◌then◌else◌,
}
use pyrenis.Base.Words.{u64_max, add64, sub64, mul64}

pub data Status : Type 0 where
  ok unsupported interrupts_enabled already_calibrated not_calibrated : Status
  reference_failure not_counting went_backwards rate_out_of_range : Status

pub record TscState : Type 0 where
  pub frequency_hz : ℕ
  pub present : Bool
  pub invariant : Bool
  pub calibrated : Bool

-- What `tsc_calibrate` reads from outside: the CPUID leaves, the interrupt flag, the counter
-- before and after the wait, and the answer of `pm_timer_wait` (`none` for a failure).
pub record Probe : Type 0 where
  pub has_tsc : Bool
  pub extended_root : ℕ
  pub has_invariant : Bool
  pub interrupts_on : Bool
  pub pm_present : Bool
  pub start : ℕ
  pub finish : ℕ
  pub waited : Option ℕ

abbrev pub extended_power : ℕ
extended_power = 0x8000_0007

abbrev pub pm_timer_frequency : ℕ
pm_timer_frequency = 3_579_545

abbrev pub nanoseconds_per_second : ℕ
nanoseconds_per_second = 1_000_000_000

abbrev pub max_frequency : ℕ
max_frequency = 18_000_000_000

pub detect_features : Probe → TscState → TscState
detect_features p s = record s {
  present = p.has_tsc;
  invariant =
      if p.has_tsc
      then if ltb p.extended_root extended_power then false else p.has_invariant
      else false;
}

-- The rate that a span implies, or the refusal. Each product stays below `2 ^ 64`.
unfoldable pub rate_from_span : ℕ → ℕ → ℕ → ℕ → Status × Option ℕ
rate_from_span start finish frequency ticks =
    if frequency == 0 || ticks == 0
    then (not_counting, none)
    else if ltb finish start
    then (went_backwards, none)
    else if finish == start
    then (not_counting, none)
    else if ltb (u64_max / frequency) (finish - start)
    then (rate_out_of_range, none)
    else let rate = mul64 (finish - start) frequency / ticks in
      if rate == 0
      then (not_counting, some rate)
      else if ltb max_frequency rate
      then (rate_out_of_range, some rate)
      else (ok, some rate)

unfoldable pub span_to_nanoseconds : ℕ → ℕ → ℕ
span_to_nanoseconds elapsed rate =
    add64 (mul64 (elapsed / rate) nanoseconds_per_second)
      (mul64 (elapsed % rate) nanoseconds_per_second / rate)

-- The end of `tsc_calibrate`: the rate is stored on success only.
settle : TscState → Status × Option ℕ → Status × TscState
settle s (ok, some rate) = (ok, record s { frequency_hz = rate; calibrated = true })
settle s (ok, none) = (not_counting, s)
settle s (st, _) = (st, s)

-- The wait between the two readings of the counter, and what is made of them.
pub measure : Probe → TscState → Option ℕ → Status × TscState
unfolding settle
measure p s none = (reference_failure, s)
measure p s (some ticks) = settle s (rate_from_span p.start p.finish pm_timer_frequency ticks)

pub calibrate : Probe → TscState → Status × TscState
calibrate p s0 =
    let s = detect_features p s0 in
    if not s.present
    then (unsupported, s)
    else if p.interrupts_on
    then (interrupts_enabled, s)
    else if s.calibrated
    then (already_calibrated, s)
    else if not p.pm_present
    then (reference_failure, s)
    else measure p s p.waited

unfoldable pub span_nanoseconds : TscState → ℕ → ℕ → ℕ
span_nanoseconds s start finish =
    if not s.calibrated || ltb finish start
    then 0
    else span_to_nanoseconds (finish - start) s.frequency_hz
