-- ===== src/Timer/Tests.antt =====
-- Examples for the theorems on src/kernel/timer.c, with a table of four entries.
use pyrenis.Base.{ℕ, zero, suc, ◌+◌, ◌≤◌, ◌<◌, ◌≡◌, refl, true, false, some, List, [], ◌∷◌, arith}
use pyrenis.Timer.Table.{
  Entry, vacant, entry_at, is_due, find_entry, free_slot, choose_due, better, earlier,
  earliest_deadline, earliest_from, slot_of,
}
use pyrenis.Timer.Calls.{
  Outside, TimerState, ok, pending_entry, Request, arming, cancelling, Behaviour, interval_for,
  reprogram, enter, settle_arm, timer_arm, timer_cancel, serve, serve_all, fire, expire_reached,
  on_expiry, list_count, expired_late,
}
use pyrenis.Timer.Due.{due_count}
use pyrenis.Timer.Expiry.{ascends, all_later, is_later, expire_reached-in_order}
use pyrenis.Timer.Cover.{Covers, on_expiry-Covers}
use pyrenis.Timer.Identifiers.{IsValid, timer_cancel-timer_arm}
use pyrenis.Timer.Sleep.{
  Sleeper, expiry, Turn, timer_sleep_ns, settle_sleep, wait, deliver_all, deliver, with_sleep,
  run_callbacks, sleep_callback,
}
use pyrenis.Timer.Requests.{request_count, serve_all-IsValid}

abbrev works : Outside
works = record { now = 1_000_000; later = 1_000_010; is_armed = true; disarms = true; arms = true }

-- Pending at 0.9 ms, 3 ms and 0.5 ms, in that order.
abbrev three_pending : TimerState
three_pending = record {
  entries =
      pending_entry 900_000 1 77 0
      ∷ vacant
      ∷ pending_entry 3_000_000 2 77 1
      ∷ pending_entry 500_000 3 77 2
      ∷ [];
  next_identifier = 4;
  expiry_counter = 0;
  started = true;
  programmed = some 100_000;
}

-- Each callback arms a deadline 2 ms away.
abbrev rearms : Behaviour
rearms e s = arming (e.deadline_ns + 2_000_000) 78 5 works ∷ []

fires_in_order :
    expire_reached 5 rearms 1_000_000 three_pending
    ≡ some (
      pending_entry 500_000 3 77 2 ∷ pending_entry 900_000 1 77 0 ∷ [],
      record three_pending {
        entries =
            pending_entry 2_900_000 5 78 5
            ∷ pending_entry 2_500_000 4 78 5
            ∷ pending_entry 3_000_000 2 77 1
            ∷ vacant
            ∷ [];
        next_identifier = 6;
        programmed = some 1_499_990;
      },
    )
unfolding expire_reached choose_due better fire serve_all serve timer_arm settle_arm enter reprogram
    free_slot find_entry earliest_deadline earliest_from earlier interval_for
fires_in_order = refl

expire_reached-in_order_example :
    (fired : List Entry) × (t : TimerState) × (expire_reached 5 rearms 1_000_000 three_pending
      ≡ some (fired, t))
    × ((slot : ℕ) → is_due 1_000_000 (entry_at t.entries slot) ≡ false)
    × (ascends 1_000_000 0 fired ≡ true)
    × (list_count fired ≤ due_count 1_000_000 three_pending.entries)
unfolding all_later is_later
expire_reached-in_order_example =
    expire_reached-in_order 1_000_000 rearms three_pending 5 (λ e u. refl) (omega arith)

on_expiry-Covers_example :
    (t : TimerState) × (on_expiry 5 rearms works three_pending ≡ some t)
    × ((i : ℕ)
        → (entry_at t.entries i).in_use ≡ true
        → (1_000_000 < (entry_at t.entries i).deadline_ns)
          × Covers 1_000_010 (entry_at t.entries i) t.programmed)
unfolding all_later is_later
on_expiry-Covers_example =
    on_expiry-Covers rearms works three_pending 5 (λ e u. refl) (omega arith) refl refl

abbrev one_pending : TimerState
one_pending = record three_pending {
  entries = pending_entry 1_900_000 1 77 0 ∷ vacant ∷ vacant ∷ vacant ∷ [];
}

only_first : (i : ℕ) → (entry_at one_pending.entries i).in_use ≡ true → i ≡ 0
only_first zero u = refl
only_first (suc zero) u = absurd (ground (arith, u))
only_first (suc (suc zero)) u = absurd (ground (arith, u))
only_first (suc (suc (suc zero))) u = absurd (ground (arith, u))
only_first (suc (suc (suc (suc i)))) u = absurd (ground (arith, u))

one_pending-IsValid : IsValid one_pending
one_pending-IsValid = record {
  next_positive = omega arith;
  given_out = λ i u. rw (only_first i u) (omega arith, omega arith);
  distinct = λ i j u w e. ground (arith, only_first i u, only_first j w);
}

abbrev armed_state : TimerState
armed_state = record one_pending {
  entries = pending_entry 1_900_000 1 77 0 ∷ pending_entry 5_000_000 4 78 9 ∷ vacant ∷ vacant ∷ [];
  next_identifier = 5;
  programmed = some 899_990;
}

arms_four : timer_arm true 5_000_000 78 9 works one_pending ≡ (ok, some 4, armed_state)
unfolding timer_arm settle_arm enter reprogram free_slot find_entry earliest_deadline earliest_from
    earlier interval_for
arms_four = refl

timer_cancel-timer_arm_example :
    (u : TimerState) × (timer_cancel 4 works armed_state ≡ (ok, u))
    × ((i : ℕ)
        → ((entry_at u.entries i).in_use ≡ (entry_at one_pending.entries i).in_use)
          × ((entry_at one_pending.entries i).in_use ≡ true
              → entry_at u.entries i ≡ entry_at one_pending.entries i))
timer_cancel-timer_arm_example =
    timer_cancel-timer_arm true 5_000_000 78 9 4 works works one_pending armed_state
      one_pending-IsValid arms_four refl refl

abbrev some_requests : List Request
some_requests = arming 4_000_000 78 0 works ∷ cancelling 1 works ∷ arming 4_000_000 79 0 works ∷ []

serve_all-IsValid_example : IsValid (serve_all some_requests one_pending)
unfolding request_count
serve_all-IsValid_example =
    serve_all-IsValid some_requests one_pending one_pending-IsValid (omega arith)

abbrev no_calls : Behaviour
no_calls e u = []

-- A sleep of 0.2 ms from 1 ms on: the first halt ends in an expiry interrupt at 1.3 ms.
abbrev slept_turns : List Turn
slept_turns =
    record {
      meanwhile = [];
      clock = 1_000_100;
      is_armed = true;
      outside = works;
      halt = some (expiry no_calls (record works { now = 1_300_000; later = 1_300_010 }) ∷ []);
    }
    ∷ record {
      meanwhile = [];
      clock = 60_000_000;
      is_armed = true;
      outside = works;
      halt = some [];
    }
    ∷ []

-- A sleep before this one has left the flag set.
abbrev sleeper : Sleeper
sleeper = record { timer = one_pending; sleep_expired = true }

-- The interrupt fires the entry of the sleep, and the wait ends well.
wakes :
    (t : Sleeper) × (timer_sleep_ns 80 slept_turns works 1_000_000 200_000 sleeper ≡ some (ok, t))
unfolding timer_sleep_ns settle_sleep wait deliver_all deliver with_sleep run_callbacks
    sleep_callback on_expiry expire_reached choose_due better fire serve_all serve timer_arm
    settle_arm enter reprogram free_slot find_entry earliest_deadline earliest_from earlier
    interval_for list_count
wakes = (_, refl)

-- Without an interrupt in the halt the wait is given up, though the flag was set before.
abbrev quiet_turns : List Turn
quiet_turns =
    record { meanwhile = []; clock = 60_000_000; is_armed = true; outside = works; halt = some [] }
    ∷ []

gives_up :
    (t : Sleeper) × (timer_sleep_ns 80 quiet_turns works 1_000_000 200_000 sleeper
      ≡ some (expired_late, t))
unfolding timer_sleep_ns settle_sleep wait deliver_all timer_arm settle_arm enter reprogram
    free_slot find_entry earliest_deadline earliest_from earlier interval_for timer_cancel slot_of
gives_up = (_, refl)
