-- ===== src/Timer/Cover.antt =====
-- That the local APIC timer is programmed for the nearest deadline of src/kernel/timer.c.
use pyrenis.Base.{
  ℕ, zero, suc, ◌+◌, ◌≤◌, ◌<◌, ◌≡◌, refl, ◌⊎◌, inl, inr, true, ◌&&◌, Option, some, List, [], ◌∷◌,
  arith, ltb, Bool-cases, length,
}
use pyrenis.Base.Words.{add64}
use pyrenis.Timer.Table.{Entry, entry_at, earlier, earliest_from, earliest_deadline}
use pyrenis.Timer.Calls.{
  Outside, TimerState, ok, interval_for, reprogram, Behaviour, on_expiry, list_count,
  minimum_interval_ns,
}
use pyrenis.Timer.Expiry.{expire_reached-in_order, all_later, reprogram-entries}

-- A bound on the first entry and on the others is one on each.
bounded :
    (e : Entry) (es : List Entry) (d : ℕ)
    → ((j : ℕ) → (entry_at es j).in_use ≡ true → d ≤ (entry_at es j).deadline_ns)
    → (e.in_use ≡ true → d ≤ e.deadline_ns)
    → (j : ℕ) → (entry_at (e ∷ es) j).in_use ≡ true
    → d ≤ (entry_at (e ∷ es) j).deadline_ns
bounded e es d all first zero u = first u
bounded e es d all first (suc j) u = all j u

-- The deadline found with one already at hand is no later than that and than any pending one.
earliest_with :
    (es : List Entry) (m : ℕ)
    → (d : ℕ) × (earliest_from (some m) es ≡ some d)
      × (d ≤ m)
      × ((i : ℕ) → (entry_at es i).in_use ≡ true → d ≤ (entry_at es i).deadline_ns)
unfolding earliest_from earlier
earliest_with [] m = (m, refl, omega arith, λ i u. absurd (ground (arith, u)))
earliest_with (e ∷ es) m = elim (Bool-cases (e.in_use && ltb e.deadline_ns m)) [
  | inl t ↦
      let (d, found, l, all) = earliest_with es e.deadline_ns in
      (
        d,
        ground (arith, t, found),
        ground (arith, t, l),
        bounded e es d all (λ u. ground (arith, l)),
      )
  | inr f ↦
      let (d, found, l, all) = earliest_with es m in
      (d, ground (arith, f, found), l, bounded e es d all (λ u. ground (arith, f, u, l)))
]

-- A table with a pending entry has an earliest deadline.
earliest_deadline-le :
    (es : List Entry) (i : ℕ)
    → (entry_at es i).in_use ≡ true
    → (d : ℕ) × (earliest_deadline es ≡ some d) × (d ≤ (entry_at es i).deadline_ns)
unfolding earliest_deadline earliest_from earlier
earliest_deadline-le [] i u = absurd (ground (arith, u))
earliest_deadline-le (e ∷ es) zero u =
    let (d, found, l, all) = earliest_with es e.deadline_ns in (d, ground (arith, u, found), l)
earliest_deadline-le (e ∷ es) (suc i) u = elim (Bool-cases e.in_use) [
  | inl t ↦
      let (d, found, l, all) = earliest_with es e.deadline_ns in
      (d, ground (arith, t, found), all i u)
  | inr f ↦ let (d, found, l) = earliest_deadline-le es i u in (d, ground (arith, f, found), l)
]

-- The interrupt comes by the deadline of the pending entry, or after the least interval.
unfoldable pub Covers : ℕ → Entry → Option ℕ → Type 0
Covers now e programmed =
    (interval : ℕ) × (programmed ≡ some interval)
    × (minimum_interval_ns ≤ interval)
    × ((now + interval ≤ e.deadline_ns) ⊎ (interval ≡ minimum_interval_ns))

reprogram-Covers :
    (o : Outside) (s : TimerState) (i : ℕ)
    → (reprogram o s).0 ≡ ok
    → (entry_at s.entries i).in_use ≡ true
    → Covers o.later (entry_at s.entries i) (reprogram o s).1.programmed
unfolding Covers reprogram interval_for
reprogram-Covers o s i e u =
    let (d, found, l) = earliest_deadline-le s.entries i u in
    (interval_for d o.later, ground (arith, e, found), ground arith, ground (arith, l))

-- Take callbacks in whose calls the clock reads no less than at the start of the handler, more
-- fuel than the table has entries, and a local APIC timer that disarms and arms. Then on_expiry
-- ends, every deadline still pending lies after the instant, and the timer is programmed for it:
-- the interrupt comes no later than the deadline, or after the least interval.
pub on_expiry-Covers :
    (act : Behaviour) (o : Outside) (s : TimerState) (fuel : ℕ)
    → ((e : Entry) (u : TimerState) → all_later o.now (act e u) ≡ true)
    → length s.entries < fuel
    → o.disarms ≡ true
    → o.arms ≡ true
    → (t : TimerState) × (on_expiry fuel act o s ≡ some t)
      × ((i : ℕ)
          → (entry_at t.entries i).in_use ≡ true
          → (o.now < (entry_at t.entries i).deadline_ns)
            × Covers o.later (entry_at t.entries i) t.programmed)
unfolding on_expiry reprogram
on_expiry-Covers act o s fuel later l disarms arms =
    let (fired, t, runs, left, up, few) = expire_reached-in_order o.now act s fuel later l in
    let counted : TimerState = record t {
      expiry_counter = add64 t.expiry_counter (list_count fired);
    } in
    (
      (reprogram o counted).1,
      ground (arith, runs),
      rw (reprogram-entries o counted)
          λ i u. (ground (arith, left i, u), reprogram-Covers o counted i (succeeds counted) u),
    )
  where
    succeeds : (u : TimerState) → (reprogram o u).0 ≡ ok
    succeeds u = ground (arith, disarms, arms)
