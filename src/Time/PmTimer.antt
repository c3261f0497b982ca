-- ===== src/Time/PmTimer.antt =====
-- The ACPI power management timer, src/kernel/pm_timer.c. What the port answers to a read is an
-- argument: for a wait, the list of answers is a function of the number of the read.
pub mod Wait
pub mod Convert
use Prim.Native.Nat.{bit_and}
use pyrenis.Base.{
  ℕ, zero, suc, ◌+◌, ◌-◌, ◌*◌, ◌/◌, ◌%◌, ◌^◌, Bool, true, false, not, ◌&&◌, ◌||◌, Option, none,
  some, ltb, leb, ◌==◌, if◌then◌else◌,
}
use pyrenis.Base.Words.{add64, mul64, inc64}

abbrev pub base_bits : ℕ
base_bits = 24

abbrev pub extended_bits : ℕ
extended_bits = 32

abbrev pub block_length : ℕ
block_length = 4

abbrev pub max_wait_ticks : ℕ
max_wait_ticks = 2 ^ 22

abbrev pub polls_per_tick : ℕ
polls_per_tick = 64

abbrev pub pm_frequency_hz : ℕ
pm_frequency_hz = 3_579_545

abbrev pub pm_nanoseconds_per_second : ℕ
pm_nanoseconds_per_second = 1_000_000_000

pub data Status : Type 0 where
  ok null_argument absent already_initialized bad_port : Status
  bad_counter_width bad_interval not_counting stalled : Status

pub record PmState : Type 0 where
  pub port : ℕ
  pub counter_bits : ℕ
  pub extended_address : Bool
  pub present : Bool

-- What pm_timer_initialize reads of `struct acpi_fadt`.
pub record Fadt : Type 0 where
  pub pm_timer_port : ℕ
  pub pm_timer_counter_bits : ℕ
  pub pm_timer_extended_address : Bool

pub record PmWait : Type 0 where
  pub target : ℕ
  pub elapsed : ℕ
  pub polls : ℕ
  pub poll_limit : ℕ
  pub previous : ℕ
  pub counter_bits : ℕ

-- The difference of two `uint32_t`.
abbrev pub sub32 : ℕ → ℕ → ℕ
sub32 a b = (a + 2 ^ 32 - b) % 2 ^ 32

unfoldable pub counter_width_is_supported : ℕ → Bool
counter_width_is_supported bits = bits == base_bits || bits == extended_bits

unfoldable pub mask_for_width : ℕ → ℕ
mask_for_width bits = if bits == extended_bits then 2 ^ 32 - 1 else 2 ^ 24 - 1

-- The status and the ticks that are stored.
unfoldable pub span_from_samples : ℕ → ℕ → ℕ → Status × ℕ
span_from_samples start finish bits =
    let mask = mask_for_width bits in
    let ticks = bit_and (sub32 (bit_and finish mask) (bit_and start mask)) mask in
    if not (counter_width_is_supported bits)
    then (bad_counter_width, 0)
    else if ticks == 0
    then (not_counting, 0)
    else (ok, ticks)

unfoldable pub wait_begin : ℕ → ℕ → ℕ → Status × Option PmWait
wait_begin ticks bits first_sample =
    if not (counter_width_is_supported bits)
    then (bad_counter_width, none)
    else if ticks == 0 || ltb max_wait_ticks ticks
    then (bad_interval, none)
    else (
      ok,
      some (record {
        target = ticks;
        elapsed = 0;
        polls = 0;
        poll_limit = mul64 ticks polls_per_tick;
        previous = bit_and first_sample (mask_for_width bits);
        counter_bits = bits;
      }),
    )

-- The status, whether the wait is complete, and the wait after the sample.
unfoldable pub wait_step : ℕ → PmWait → Status × Bool × PmWait
wait_step sample w =
    let mask = mask_for_width w.counter_bits in
    let masked = bit_and sample mask in
    let elapsed = add64 w.elapsed (bit_and (sub32 masked w.previous) mask) in
    if leb w.poll_limit w.polls then (stalled, false, w) else (
      ok,
      leb w.target elapsed,
      record w { polls = inc64 w.polls; elapsed = elapsed; previous = masked },
    )

unfoldable pub pm_timer_initialize : Option Fadt → PmState → Status × PmState
pm_timer_initialize none s = (null_argument, s)
pm_timer_initialize (some f) s =
    let cleared : PmState = record {
      port = 0;
      counter_bits = 0;
      extended_address = false;
      present = false;
    } in
    if s.present
    then (already_initialized, s)
    else if f.pm_timer_port == 0 || ltb (2 ^ 16 - 1 - (block_length - 1)) f.pm_timer_port
    then (bad_port, cleared)
    else if not (counter_width_is_supported f.pm_timer_counter_bits)
    then (bad_counter_width, cleared)
    else (
      ok,
      record {
        port = f.pm_timer_port;
        counter_bits = f.pm_timer_counter_bits;
        extended_address = f.pm_timer_extended_address;
        present = true;
      },
    )

-- `answer` is what the port gives.
unfoldable pub pm_timer_read : PmState → ℕ → ℕ
pm_timer_read s answer = if s.present then bit_and answer (mask_for_width s.counter_bits) else 0

-- The ticks go through a pointer: `none` leaves it alone.
unfoldable pub pm_timer_span : Bool → ℕ → ℕ → PmState → Status × Option ℕ
pm_timer_span given start finish s =
    let (st, ticks) = span_from_samples start finish s.counter_bits in
    if not given
    then (null_argument, none)
    else if not s.present
    then (absent, some 0)
    else (st, some ticks)

-- What follows a poll: the end of the wait, or the rest of the loop.
unfoldable pub after_poll :
    (PmWait → Option (Status × PmWait)) → PmWait → Status × Bool × PmWait → Option (Status × PmWait)
after_poll rest w (ok, complete, w') = if complete then some (ok, w') else rest w'
after_poll rest w (st, complete, w') = some (st, w)

-- The loop of pm_timer_wait from read `n` on, with the wait at its end; `none` is the end of the
-- fuel.
unfoldable pub poll : ℕ → PmState → (ℕ → ℕ) → ℕ → PmWait → Option (Status × PmWait)
poll zero s answers n w = none
poll (suc fuel) s answers n w =
    after_poll (poll fuel s answers (suc n)) w (wait_step (pm_timer_read s (answers n)) w)

unfoldable pub settle_wait : Option (Status × PmWait) → Option (Status × Option ℕ)
settle_wait none = none
settle_wait (some (ok, w)) = some (ok, some w.elapsed)
settle_wait (some (st, w)) = some (st, some 0)

unfoldable pub start_poll :
    ℕ → PmState → (ℕ → ℕ) → Status × Option PmWait → Option (Status × Option ℕ)
start_poll fuel s answers (st, none) = some (st, some 0)
start_poll fuel s answers (st, some w) = settle_wait (poll fuel s answers 1 w)

unfoldable pub pm_timer_wait : ℕ → Bool → ℕ → (ℕ → ℕ) → PmState → Option (Status × Option ℕ)
pm_timer_wait fuel given ticks answers s =
    if not given
    then some (null_argument, none)
    else if not s.present
    then some (absent, some 0)
    else start_poll fuel s answers (wait_begin ticks s.counter_bits (pm_timer_read s (answers 0)))

unfoldable pub pm_timer_ticks_to_nanoseconds : ℕ → ℕ
pm_timer_ticks_to_nanoseconds ticks =
    add64 (mul64 (ticks / pm_frequency_hz) pm_nanoseconds_per_second)
      (mul64 (ticks % pm_frequency_hz) pm_nanoseconds_per_second / pm_frequency_hz)

unfoldable pub pm_timer_nanoseconds_to_ticks : ℕ → ℕ
pm_timer_nanoseconds_to_ticks nanoseconds =
    add64 (mul64 (nanoseconds / pm_nanoseconds_per_second) pm_frequency_hz)
      (mul64 (nanoseconds % pm_nanoseconds_per_second) pm_frequency_hz / pm_nanoseconds_per_second)

unfoldable pub pm_timer_durations_agree : ℕ → ℕ → ℕ → Bool
pm_timer_durations_agree measured reference tolerance_divisor =
    let difference =
      if ltb reference measured then measured - reference else reference - measured in
    not (reference == 0)
    && (not (tolerance_divisor == 0) && leb difference (reference / tolerance_divisor))
