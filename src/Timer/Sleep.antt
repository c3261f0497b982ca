-- ===== src/Timer/Sleep.antt =====
-- timer_sleep_ns and sleep_callback of src/kernel/timer.c: the wait for a deadline of one's own.
-- The turns of the wait are a list: what the clock and the local APIC timer answer in each, and
-- what interrupts do meanwhile. A halt that does not return ends the run with `none`, and so does
-- the end of the list. The processor's interrupt flag is not kept.
use pyrenis.Base.{
  ℕ, suc, Bool, true, false, not, Option, none, some, List, [], ◌∷◌, ltb, ◌==◌, if◌then◌else◌,
  length,
}
use pyrenis.Base.Words.{add64}
use pyrenis.Timer.Table.{Entry}
use pyrenis.Timer.Calls.{
  Outside, TimerState, Status, ok, not_started, bad_interval, hardware_failure, Request, Behaviour,
  serve, expire_reached, on_expiry, expired_late, timer_arm, timer_cancel, minimum_interval_ns,
}

abbrev pub sleep_grace_ns : ℕ
sleep_grace_ns = 50_000_000

-- The timer's variables with the flag of a sleep.
pub record Sleeper : Type 0 where
  pub timer : TimerState
  pub sleep_expired : Bool

unfoldable pub sleep_callback : Sleeper → Sleeper
sleep_callback s = record s { sleep_expired = true }

-- What may happen while a sleep waits: an expiry interrupt, in which the callbacks other than
-- sleep_callback act as given, or a call that other code makes of the timer. A second sleep at the
-- same time is not among them.
pub data Event : Type 0 where
  expiry : (act : Behaviour) (o : Outside) → Event
  calling : (r : Request) → Event

-- One turn of the wait: what happens before the clock and the hardware are looked at, their
-- answers, the answers to a cancel, and what happens in the halt; `none` is a halt for ever.
pub record Turn : Type 0 where
  pub meanwhile : List Event
  pub clock : ℕ
  pub is_armed : Bool
  pub outside : Outside
  pub halt : Option (List Event)

-- `callback` is the address of sleep_callback.
module _ (callback : ℕ) where
  -- sleep_callback makes no calls.
  unfoldable pub with_sleep : Behaviour → Behaviour
  with_sleep act e s = if e.callback == callback then [] else act e s

  unfoldable pub run_callbacks : List Entry → Sleeper → Sleeper
  run_callbacks [] s = s
  run_callbacks (e ∷ fired) s =
      run_callbacks fired (if e.callback == callback then sleep_callback s else s)

  -- The fuel of the pass is above the number of entries.
  unfoldable pub deliver : Event → Sleeper → Option Sleeper
  deliver (expiry act o) s =
      let fuel = suc (length s.timer.entries) in
      elim (expire_reached fuel (with_sleep act) o.now s.timer) [
        | none ↦ none
        | some (fired, t) ↦ elim (on_expiry fuel (with_sleep act) o s.timer) [
          | none ↦ none
          | some u ↦ some (run_callbacks fired (record s { timer = u }))
        ]
      ]
  deliver (calling r) s = some (record s { timer = serve r s.timer })

  unfoldable pub deliver_all : List Event → Sleeper → Option Sleeper
  deliver_all [] s = some s
  deliver_all (e ∷ events) s = elim (deliver e s) [ none ↦ none | some t ↦ deliver_all events t ]

  abbrev pub give_up : ℕ → Outside → Sleeper → Sleeper
  give_up identifier o s = record s { timer = (timer_cancel identifier o s.timer).1 }

  unfoldable pub wait : List Turn → ℕ → ℕ → Sleeper → Option (Status × Sleeper)
  wait [] identifier abandon_ns s = if s.sleep_expired then some (ok, s) else none
  wait (turn ∷ turns) identifier abandon_ns s = elim s.sleep_expired [
    | true ↦ some (ok, s)
    | false ↦ elim (deliver_all turn.meanwhile s) [
      | none ↦ none
      | some t ↦ elim (ltb abandon_ns turn.clock) [
        | true ↦ some (expired_late, give_up identifier turn.outside t)
        | false ↦ elim turn.is_armed [
          | false ↦ some (hardware_failure, give_up identifier turn.outside t)
          | true ↦ elim turn.halt [
            | none ↦ none
            | some events ↦ elim (deliver_all events t) [
              | none ↦ none
              | some u ↦ wait turns identifier abandon_ns u
            ]
          ]
        ]
      ]
    ]
  ]

  -- The flag is reset before the deadline is armed.
  unfoldable pub settle_sleep :
      List Turn → ℕ → Status × Option ℕ × TimerState → Option (Status × Sleeper)
  settle_sleep turns abandon_ns (ok, some identifier, s) =
      wait turns identifier abandon_ns (record { timer = s; sleep_expired = false })
  settle_sleep turns abandon_ns (st, identifier, s) =
      some (st, record { timer = s; sleep_expired = false })

  -- `now` is the clock when the deadline is computed.
  unfoldable pub timer_sleep_ns : List Turn → Outside → ℕ → ℕ → Sleeper → Option (Status × Sleeper)
  timer_sleep_ns turns o now nanoseconds s =
      let deadline_ns = add64 now nanoseconds in
      let abandon_ns = add64 (add64 deadline_ns nanoseconds) sleep_grace_ns in
      if not s.timer.started
      then some (not_started, s)
      else if ltb nanoseconds minimum_interval_ns
      then some (bad_interval, s)
      else settle_sleep turns abandon_ns (timer_arm true deadline_ns callback 0 o s.timer)
