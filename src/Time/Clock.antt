-- ===== src/Time/Clock.antt =====
-- src/kernel/clock.c: the monotonic clock over the calibrated counter.
-- A reading of the counter is an argument of the call that takes it.
pub mod Monotone
use pyrenis.Base.{ℕ, Bool, true, List, [], ◌∷◌, ltb, not, if◌then◌else◌}
use pyrenis.Base.Words.{inc64}
use pyrenis.Time.Tsc.{TscState, span_nanoseconds}

pub data Status : Type 0 where
  ok not_started already_started no_source : Status

pub data Source : Type 0 where
  no_clock tsc : Source

pub record ClockState : Type 0 where
  pub source : Source
  pub origin : ℕ
  pub last_reported_ns : ℕ
  pub backward_steps : ℕ
  pub started : Bool

-- The value that is reported, and the count of repairs.
unfoldable pub monotonic_step : ℕ → ℕ → ℕ → ℕ × ℕ
monotonic_step candidate last backward =
    if ltb candidate last then (last, inc64 backward) else (candidate, backward)

unfoldable pub start : TscState → ℕ → ClockState → Status × ClockState
start t now s =
    if s.started then (already_started, s) else if not t.calibrated then (no_source, s) else (
      ok,
      record {
        source = tsc;
        origin = now;
        last_reported_ns = 0;
        backward_steps = 0;
        started = true;
      },
    )

unfoldable pub monotonic_ns : TscState → ℕ → ClockState → ℕ × ClockState
monotonic_ns t now s =
    let (value, backward) =
      monotonic_step (span_nanoseconds t s.origin now) s.last_reported_ns s.backward_steps in
    if s.started
    then (value, record s { last_reported_ns = value; backward_steps = backward })
    else (0, s)

-- The clock read at each counter value in turn: what it reports, and the last state.
unfoldable pub readings : TscState → List ℕ → ClockState → List ℕ × ClockState
readings t [] s = ([], s)
readings t (now ∷ later) s =
    let (value, s') = monotonic_ns t now s in
    let (values, s'') = readings t later s' in (value ∷ values, s'')
