-- ===== src/Timer/Identifiers.antt =====
-- The identifiers of the pending deadlines of src/kernel/timer.c, and that cancelling undoes arming.
use pyrenis.Base.{
  ℕ, ◌+◌, ◌^◌, ◌-◌, ◌<◌, ◌≡◌, inl, inr, Bool, true, false, not, some, arith, ◌==◌, if◌then◌else◌,
  Option-cases, length, set, length-set,
}
use pyrenis.Timer.Table.{vacant, entry_at, slot_of, free_slot}
use pyrenis.Timer.Calls.{
  Outside, TimerState, ok, reprogram, enter, settle_arm, timer_arm, timer_cancel, pending_entry,
}
use pyrenis.Timer.Expiry.{reprogram-entries}
use pyrenis.Timer.Slots.{find_entry_sound, entry_at-set, slot_of_unique}

-- Pending entries have identifiers that were given out, no two the same.
pub record IsValid (s : TimerState) : Type 0 where
  pub next_positive : 0 < s.next_identifier
  pub given_out :
      (i : ℕ)
      → (entry_at s.entries i).in_use ≡ true
      → (0 < (entry_at s.entries i).identifier)
        × ((entry_at s.entries i).identifier < s.next_identifier)
  pub distinct :
      (i j : ℕ)
      → (entry_at s.entries i).in_use ≡ true
      → (entry_at s.entries j).in_use ≡ true
      → (entry_at s.entries i).identifier ≡ (entry_at s.entries j).identifier
      → i ≡ j

-- A successful arm.
timer_arm_ok :
    (given : Bool) (deadline callback context identifier : ℕ) (o : Outside) (s t : TimerState)
    → timer_arm given deadline callback context o s ≡ (ok, some identifier, t)
    → (slot : ℕ) × (free_slot s.entries ≡ some slot)
      × (identifier ≡ s.next_identifier)
      × (t.started ≡ true)
      × (t.entries ≡ (enter slot deadline callback context s).entries)
unfolding timer_arm settle_arm reprogram enter
timer_arm_ok given deadline callback context identifier o s t e =
    elim (Option-cases (free_slot s.entries)) [
      | inl full ↦ absurd (ground (arith, full, e))
      | inr (slot, free) ↦
          (slot, free, ground (arith, free, e), ground (arith, free, e), ground (arith, free, e))
    ]

module _ (s : TimerState) (slot deadline callback context : ℕ) (v : IsValid s)
    (free : free_slot s.entries ≡ some slot) where
  entered : TimerState
  entered = enter slot deadline callback context s

  is_free : (slot < length s.entries) × ((entry_at s.entries slot).in_use ≡ false)
  unfolding free_slot
  is_free =
      let (lo, inside, f) = find_entry_sound (λ e. not e.in_use) 0 s.entries slot free in
      let whole : slot - 0 ≡ slot = omega arith in
      let f : not (entry_at s.entries slot).in_use ≡ true = rw (← whole) f in
      (omega (arith, inside), ground (arith, f))

  entered_at :
      (i : ℕ)
      → entry_at entered.entries i ≡ (
          if slot == i
          then pending_entry deadline s.next_identifier callback context
          else entry_at s.entries i)
  unfolding entered enter
  entered_at i =
      entry_at-set s.entries slot i (pending_entry deadline s.next_identifier callback context)
        is_free.0

  -- timer_cancel finds the slot of a deadline just entered.
  slot_of_entered : slot_of s.next_identifier entered.entries ≡ some slot
  unfolding entered enter
  slot_of_entered =
      slot_of_unique entered.entries s.next_identifier slot v.next_positive
        (omega (
          arith,
          is_free.0,
          length-set s.entries slot (pending_entry deadline s.next_identifier callback context),
        ))
        (ground (arith, entered_at slot)) (ground (arith, entered_at slot))
        λ i u e. ground (arith, entered_at i, v.given_out i, u, e)

  -- Vacating the slot again leaves what was pending.
  vacated_at :
      (i : ℕ)
      → ((entry_at (set entered.entries slot vacant) i).in_use ≡ (entry_at s.entries i).in_use)
        × ((entry_at s.entries i).in_use ≡ true
            → entry_at (set entered.entries slot vacant) i ≡ entry_at s.entries i)
  unfolding entered enter
  vacated_at i =
      let l : slot < length entered.entries = omega (
        arith,
        is_free.0,
        length-set s.entries slot (pending_entry deadline s.next_identifier callback context),
      ) in
      let now = entry_at-set entered.entries slot i vacant l in
      (
        ground (arith, now, entered_at i, is_free),
        λ u. ground (arith, now, entered_at i, is_free, u),
      )

pub enter-IsValid :
    (s : TimerState) (slot deadline callback context : ℕ)
    → IsValid s
    → free_slot s.entries ≡ some slot
    → s.next_identifier + 1 < 2 ^ 64
    → IsValid (enter slot deadline callback context s)
unfolding enter entered
enter-IsValid s slot deadline callback context v free l =
    let at = entered_at s slot deadline callback context v free in
    record {
      next_positive = ground (arith, l);
      given_out = λ i u. ground (arith, l, at i, u, v.given_out i, v.next_positive);
      distinct = λ i j u w e.
          ground (arith, at i, at j, u, w, e, v.given_out i, v.given_out j, v.distinct i j);
    }

-- When the identifiers are in order, a deadline that timer_arm took is cancelled by its
-- identifier, on a local APIC timer that disarms and arms: timer_cancel answers ok, and in each
-- slot the same entry is pending as before the two calls, or none.
pub timer_cancel-timer_arm :
    (given : Bool) (deadline callback context identifier : ℕ) (o p : Outside) (s t : TimerState)
    → IsValid s
    → timer_arm given deadline callback context o s ≡ (ok, some identifier, t)
    → p.disarms ≡ true
    → p.arms ≡ true
    → (u : TimerState) × (timer_cancel identifier p t ≡ (ok, u))
      × ((i : ℕ)
          → ((entry_at u.entries i).in_use ≡ (entry_at s.entries i).in_use)
            × ((entry_at s.entries i).in_use ≡ true → entry_at u.entries i ≡ entry_at s.entries i))
unfolding timer_cancel reprogram entered
timer_cancel-timer_arm given deadline callback context identifier o p s t v e disarms arms =
    let (slot, free, same_id, started, same) =
      timer_arm_ok given deadline callback context identifier o s t e in
    let found = slot_of_entered s slot deadline callback context v free in
    let back = vacated_at s slot deadline callback context v free in
    let cleared : TimerState = record t { entries = set t.entries slot vacant } in
    (
      (reprogram p cleared).1,
      ground (arith, same_id, started, same, found, disarms, arms),
      rw (reprogram-entries p cleared) (rw same back),
    )
