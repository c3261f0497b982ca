-- ===== src/Time/Clock/Monotone.antt =====
-- The clock of src/kernel/clock.c never runs backwards, and repairs only a counter that does.
use native.Mathlib.Nat.{le-div_iff_mul-le, div-mul-le_self, mod-eq_of_lt, le_trans}
use pyrenis.Base.{
  ℕ, ◌+◌, ◌-◌, ◌*◌, ◌/◌, ◌%◌, ◌^◌, ◌≤◌, ◌<◌, ◌≡◌, refl, ap, ◌∙◌, true, List, [], ◌∷◌, map, arith,
  ltb, if◌then◌else◌,
}
use pyrenis.Base.Words.{inc64}
use pyrenis.Time.Tsc.{TscState, nanoseconds_per_second, max_frequency, span_nanoseconds}
use pyrenis.Time.Tsc.Rate.{span_to_nanoseconds_exact, IsUsable}
use pyrenis.Time.Clock.{ok, ClockState, monotonic_step, start, monotonic_ns, readings}

abbrev pub max_of : ℕ → ℕ → ℕ
max_of a b = if ltb a b then b else a

-- The highest value so far, beginning with `top`.
abbrev pub running_max : ℕ → List ℕ → List ℕ
running_max top [] = []
running_max top (x ∷ xs) = max_of x top ∷ running_max (max_of x top) xs

abbrev pub drops : ℕ → List ℕ → ℕ
drops top [] = 0
drops top (x ∷ xs) = (if ltb x top then 1 else 0) + drops (max_of x top) xs

-- No value lies below the one before it.
abbrev pub IsAscending : ℕ → List ℕ → Type 0
IsAscending low [] = Unit {0}
IsAscending low (x ∷ xs) = (low ≤ x) × IsAscending x xs

running_max-IsAscending : (top : ℕ) (xs : List ℕ) → IsAscending top (running_max top xs)
running_max-IsAscending top [] = tt
running_max-IsAscending top (x ∷ xs) = (ground arith, running_max-IsAscending (max_of x top) xs)

module _ (t : TscState) (now : ℕ) (s : ClockState) where
  -- One reading, as a record.
  step_fields :
      s.started ≡ true
      → let span = span_nanoseconds t s.origin now in
        let (value, s') = monotonic_ns t now s in
        (value ≡ max_of span s.last_reported_ns)
        × (s' ≡ record s {
          last_reported_ns = max_of span s.last_reported_ns;
          backward_steps =
              if ltb span s.last_reported_ns then inc64 s.backward_steps else s.backward_steps;
        })
  unfolding monotonic_ns monotonic_step
  step_fields h = ground arith

module _ (t : TscState) where
  -- What a started clock reports is the running maximum of the spans since its origin, and the
  -- repairs are counted one by one, modulo `2 ^ 64`.
  pub readings_lem :
      (reads : List ℕ) (s : ClockState)
      → s.started ≡ true
      → let spans = map (span_nanoseconds t s.origin) reads in
        ((readings t reads s).0 ≡ running_max s.last_reported_ns spans)
        × ((readings t reads s).1.backward_steps % 2 ^ 64
            ≡ (s.backward_steps + drops s.last_reported_ns spans) % 2 ^ 64)
  unfolding readings
  readings_lem [] s h = (refl, omega arith)
  readings_lem (now ∷ later) s h =
      let (v, e) = step_fields t now s h in
      let (r, b) =
        readings_lem later
          (record s {
            last_reported_ns = max_of (span_nanoseconds t s.origin now) s.last_reported_ns;
            backward_steps =
                if ltb (span_nanoseconds t s.origin now) s.last_reported_ns
                then inc64 s.backward_steps
                else s.backward_steps;
          })
          h in
      rw (v, e)
        (
          ap (◌∷◌ (max_of (span_nanoseconds t s.origin now) s.last_reported_ns)) r,
          ground (arith, b),
        )

  -- The values that a started clock reports, from any state of it, never decrease and never fall
  -- below the value it reported last, whatever the counter does.
  pub readings-IsAscending :
      (reads : List ℕ) (s : ClockState)
      → s.started ≡ true
      → IsAscending s.last_reported_ns (readings t reads s).0
  readings-IsAscending reads s h =
      rw ((readings_lem reads s h).0) (running_max-IsAscending s.last_reported_ns _)

start_fields :
    (t : TscState) (now : ℕ) (s0 s : ClockState)
    → start t now s0 ≡ (ok, s)
    → (s.started ≡ true) × (s.origin ≡ now) × (s.last_reported_ns ≡ 0) × (s.backward_steps ≡ 0)
unfolding start
start_fields t now s0 s e = ground arith

-- The exact span from `origin` to `now`, in nanoseconds rounded down.
abbrev pub exact_span : TscState → ℕ → ℕ → ℕ
exact_span t origin now = (now - origin) * nanoseconds_per_second / t.frequency_hz

-- The counter does not step back, and no span from `origin` reaches `2 ^ 64` nanoseconds.
abbrev pub IsSteady : TscState → ℕ → ℕ → List ℕ → Type 0
IsSteady t origin low [] = Unit {0}
IsSteady t origin low (now ∷ later) =
    (low ≤ now) × (exact_span t origin now < 2 ^ 64) × IsSteady t origin now later

scale_mono : (a b k r : ℕ) → 0 < r → a ≤ b → a * k / r ≤ b * k / r
scale_mono a b k r h l =
    (le-div_iff_mul-le h).1 (le_trans (div-mul-le_self (a * k) r) (grind arith))

max_of_ge : (a b : ℕ) → b ≤ a → max_of a b ≡ a
max_of_ge a b h = ground arith

module _ (t : TscState) (calibrated : t.calibrated ≡ true) (usable : IsUsable t) where
  positive : 0 < t.frequency_hz
  positive = ground arith

  bounded : t.frequency_hz ≤ max_frequency
  bounded = ground arith

  span_exact :
      (origin now : ℕ)
      → origin ≤ now
      → exact_span t origin now < 2 ^ 64
      → span_nanoseconds t origin now ≡ exact_span t origin now
  unfolding span_nanoseconds
  span_exact origin now o fits = ground (
    arith,
    span_to_nanoseconds_exact (now - origin) t.frequency_hz positive bounded,
    mod-eq_of_lt fits,
  )

  drops-steady :
      (reads : List ℕ) (origin low top : ℕ)
      → origin ≤ low
      → top ≤ exact_span t origin low
      → IsSteady t origin low reads
      → (running_max top (map (span_nanoseconds t origin) reads) ≡ map (exact_span t origin) reads)
        × (drops top (map (span_nanoseconds t origin) reads) ≡ 0)
  drops-steady [] origin low top o l v = (refl, refl)
  drops-steady (now ∷ later) origin low top o l (up, fits, v) =
      let exact = span_exact origin now (omega arith) fits in
      let rising : top ≤ exact_span t origin now = le_trans l (
        scale_mono (low - origin) (now - origin) nanoseconds_per_second t.frequency_hz positive
          (omega arith)) in
      rw (exact, max_of_ge (exact_span t origin now) top rising)
        (let (same, none_dropped) =
            drops-steady later origin now (exact_span t origin now) (omega arith) (omega arith) v in
          (ap (◌∷◌ (exact_span t origin now)) same, ground (arith, none_dropped)))

  -- For a calibrated and usable counter that does not step back, with no span that reaches 2^64
  -- nanoseconds, from the state that `clock_start` leaves on success: every reading is the exact
  -- time since the start, rounded down, and no repair is counted.
  pub steady_readings :
      (origin : ℕ) (reads : List ℕ) (s0 s : ClockState)
      → start t origin s0 ≡ (ok, s)
      → IsSteady t origin origin reads
      → ((readings t reads s).0 ≡ map (exact_span t origin) reads)
        × ((readings t reads s).1.backward_steps % 2 ^ 64 ≡ 0)
  steady_readings origin reads s0 s e v =
      let (on, from, last, repairs) = start_fields t origin s0 s e in
      let (values, count) = readings_lem t reads s on in
      let (same, none_dropped) = drops-steady reads origin origin 0 (omega arith) (omega arith) v in
      (
        values ∙ (rw (from, last) same),
        count ∙ (rw (from, last, repairs, none_dropped) (omega arith)),
      )
