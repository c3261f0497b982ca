-- ===== src/Time/Tsc/Rate.antt =====
-- What the conversions of src/kernel/tsc.c compute, and that they do not overflow.
use native.Mathlib.Nat.{div-add-mod, le-div_iff_mul-le, add-mul-div_left, mod-lt, mod-eq_of_lt}
use pyrenis.Base.{
  ℕ, ◌+◌, ◌-◌, ◌*◌, ◌/◌, ◌%◌, ◌^◌, ◌≤◌, ◌<◌, ◌≡◌, refl, sym, ap, ◌∙◌, true, false, not, some, none,
  Option, ◌⊎◌, ◌≢◌, inl, inr, arith, if_rule,
}
use pyrenis.Base.Words.{u64_max, mul64}
use pyrenis.Time.Tsc.{
  Status, ok, unsupported, interrupts_enabled, already_calibrated, reference_failure, TscState,
  pm_timer_frequency, Probe, nanoseconds_per_second, max_frequency, rate_from_span,
  span_to_nanoseconds, calibrate, measure, detect_features, settle,
}

-- Scaling whole seconds and the remainder apart loses nothing against one exact division.
split_scale : (e r k : ℕ) → 0 < r → e / r * k + e % r * k / r ≡ e * k / r
split_scale e r k h =
    omega (arith, add-mul-div_left (e % r * k) (e / r * k) h, ap (λ (t : ℕ). t / r) regroup)
  where
    regroup : e % r * k + r * (e / r * k) ≡ e * k
    regroup = omega (arith, ap (λ (t : ℕ). t * k) (div-add-mod e r))

-- The product of the sub-second remainder stays below `2 ^ 64`.
remainder_fits : (e r : ℕ) → 0 < r → r ≤ max_frequency → e % r * nanoseconds_per_second < 2 ^ 64
remainder_fits e r h m = omega (arith, mod-lt e h)

-- For a positive rate of at most the largest frequency that a calibration accepts, the split
-- conversion is the exact one, `elapsed * 10^9 / rate` rounded down once, modulo `2 ^ 64`.
pub span_to_nanoseconds_exact :
    (e r : ℕ)
    → 0 < r
    → r ≤ max_frequency
    → span_to_nanoseconds e r ≡ (e * nanoseconds_per_second / r) % 2 ^ 64
unfolding span_to_nanoseconds
span_to_nanoseconds_exact e r h m = omega (
  arith,
  split_scale e r nanoseconds_per_second h,
  remainder_fits e r h m,
  ap (λ (t : ℕ). t / r) (mod-eq_of_lt (remainder_fits e r h m)),
)

scaled_fits : (e f : ℕ) → 0 < f → e ≤ u64_max / f → mul64 e f ≡ e * f
scaled_fits e f h l = mod-eq_of_lt (omega (arith, (le-div_iff_mul-le h).0 l))

-- An accepted span has the exact rate, rounded down, within the conversion's bound.
pub rate_from_span-ok :
    (start finish frequency ticks rate : ℕ)
    → rate_from_span start finish frequency ticks ≡ (ok, some rate)
    → (rate ≡ (finish - start) * frequency / ticks)
      × (0 < rate)
      × (rate ≤ max_frequency)
      × (start < finish)
      × (0 < ticks)
unfolding rate_from_span
rate_from_span-ok start finish frequency ticks rate h =
    ground (arith, scaled_fits (finish - start) frequency)

-- What each outcome of a calibration leaves behind. A refusal changes neither the rate nor the
-- flag; success stores the exact rate of the observed span.
pub record Settled (p : Probe) (s : TscState) (r : Status × TscState) : Type 0 where
  pub outcome :
      ((r.0 ≢ ok) × (r.1.frequency_hz ≡ s.frequency_hz) × (r.1.calibrated ≡ s.calibrated))
      ⊎ ((r.0 ≡ ok)
          × (s.calibrated ≡ false)
          × (r.1.calibrated ≡ true)
          × ((ticks : ℕ) × (p.waited ≡ some ticks)
              × (r.1.frequency_hz ≡ (p.finish - p.start) * pm_timer_frequency / ticks)
              × (0 < r.1.frequency_hz)
              × (r.1.frequency_hz ≤ max_frequency)))

refused :
    (p : Probe) (s t : TscState) (st : Status)
    → st ≢ ok
    → t.frequency_hz ≡ s.frequency_hz
    → t.calibrated ≡ s.calibrated
    → Settled p s (st, t)
refused p s t st n f c = record { outcome = inl (n, f, c) }

settle-Settled :
    (p : Probe) (s0 s : TscState) (ticks : ℕ) (r : Status × Option ℕ)
    → s.frequency_hz ≡ s0.frequency_hz
    → s.calibrated ≡ s0.calibrated
    → s.calibrated ≡ false
    → p.waited ≡ some ticks
    → rate_from_span p.start p.finish pm_timer_frequency ticks ≡ r
    → Settled p s0 (settle s r)
unfolding settle
settle-Settled p s0 s ticks (ok, some rate) f c u w e =
    let (exact, low, high, _, _) = rate_from_span-ok _ _ _ _ rate e in
    record { outcome = inr (refl, sym c ∙ u, refl, (ticks, w, exact, low, high)) }
settle-Settled p s0 s ticks (ok, none) f c u w e = refused p s0 s _ (ground arith) f c
settle-Settled p s0 s ticks (st, o) f c u w e = refused p s0 s _ (ground arith) f c

measure-Settled :
    (p : Probe) (s0 s : TscState) (w : Option ℕ)
    → s.frequency_hz ≡ s0.frequency_hz
    → s.calibrated ≡ s0.calibrated
    → s.calibrated ≡ false
    → p.waited ≡ w
    → Settled p s0 (measure p s w)
unfolding measure
measure-Settled p s0 s none f c u w = refused p s0 s _ (ground arith) f c
measure-Settled p s0 s (some ticks) f c u w =
    settle-Settled p s0 s ticks (rate_from_span p.start p.finish pm_timer_frequency ticks) f c u w
      refl

-- `tsc_calibrate` on every outcome: a refusal leaves the rate and the calibrated flag as they
-- were; success happens once, only after a completed wait, and stores the exact rate
-- `(end - start) * 3579545 / ticks`, positive and within the conversion's bound.
pub calibrate-Settled : (p : Probe) (s : TscState) → Settled p s (calibrate p s)
unfolding calibrate detect_features
calibrate-Settled p s =
    let t = detect_features p s in
    if_rule (Settled p s) (not p.has_tsc) {x = (unsupported, t)}
      (λ _. refused p s t unsupported (ground arith) refl refl)
      λ _.
        if_rule (Settled p s) p.interrupts_on {x = (interrupts_enabled, t)}
          (λ _. refused p s t interrupts_enabled (ground arith) refl refl)
          λ _.
            if_rule (Settled p s) s.calibrated {x = (already_calibrated, t)}
              (λ _. refused p s t already_calibrated (ground arith) refl refl)
              λ fresh.
                if_rule (Settled p s) (not p.pm_present) {x = (reference_failure, t)}
                  (λ _. refused p s t reference_failure (ground arith) refl refl)
                  λ _. measure-Settled p s t p.waited refl refl fresh refl

-- The rate of a calibrated counter is one that the conversions can divide by and scale with.
abbrev pub IsUsable : TscState → Type 0
IsUsable s = (s.calibrated ≡ false) ⊎ ((0 < s.frequency_hz) × (s.frequency_hz ≤ max_frequency))

Settled-IsUsable :
    (p : Probe) (s : TscState) (r : Status × TscState) → Settled p s r → IsUsable s → IsUsable r.1
Settled-IsUsable p s r d v = elim d.outcome [
  | inl (_, f, c) ↦ rw (f, c) v
  | inr (_, _, _, (_, _, _, low, high)) ↦ inr (low, high)
]

-- A state is usable when it is not calibrated or its rate is positive and at most the bound;
-- tsc_calibrate keeps the state usable, whatever it answers.
pub calibrate-IsUsable : (p : Probe) (s : TscState) → IsUsable s → IsUsable (calibrate p s).1
calibrate-IsUsable p s = Settled-IsUsable p s (calibrate p s) (calibrate-Settled p s)
