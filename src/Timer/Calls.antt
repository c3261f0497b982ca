-- ===== src/Timer/Calls.antt =====
-- The entry points of src/kernel/timer.c. What the clock reads and what the local APIC timer
-- answers in a call is a record that the caller gives; what a callback does is the list of the
-- calls that it makes.
use pyrenis.Base.{
  ℕ, zero, suc, ◌-◌, Bool, true, false, not, ◌&&◌, ◌||◌, Option, none, some, List, [], ◌∷◌, ltb,
  ◌==◌, if◌then◌else◌, set, replicate,
}
use pyrenis.Base.Words.{add64, inc64}
use pyrenis.Timer.Table.{Entry, vacant, entry_at, slot_of, free_slot, earliest_deadline, choose_due}

abbrev pub minimum_interval_ns : ℕ
minimum_interval_ns = 100_000

abbrev pub max_pending : ℕ
max_pending = 32

pub data Status : Type 0 where
  ok null_argument not_started already_started no_clock no_capacity no_memory : Status
  bad_interval unknown_timer hardware_failure expired_late : Status

-- The clock when the call reads it, and when reprogram does, and the answers of the local APIC
-- timer.
pub record Outside : Type 0 where
  pub now : ℕ
  pub later : ℕ
  pub is_armed : Bool
  pub disarms : Bool
  pub arms : Bool

-- The file-scope variables; `programmed` is the interval that the hardware was last given.
pub record TimerState : Type 0 where
  pub entries : List Entry
  pub next_identifier : ℕ
  pub expiry_counter : ℕ
  pub started : Bool
  pub programmed : Option ℕ

-- The interval for a deadline: at least the minimum, also for one that has passed.
unfoldable pub interval_for : ℕ → ℕ → ℕ
interval_for deadline now =
    let interval = if ltb now deadline then deadline - now else 0 in
    if ltb interval minimum_interval_ns then minimum_interval_ns else interval

unfoldable pub reprogram : Outside → TimerState → Status × TimerState
reprogram o s =
    let idle = record s { programmed = if o.is_armed then none else s.programmed } in
    if o.is_armed && not o.disarms
    then (hardware_failure, s)
    else elim (earliest_deadline s.entries) [
      | none ↦ (ok, idle)
      | some deadline ↦
          if not o.arms
          then (hardware_failure, idle)
          else (ok, record s { programmed = some (interval_for deadline o.later) })
    ]

unfoldable pub settle_arm : ℕ → ℕ → Status × TimerState → Status × Option ℕ × TimerState
settle_arm slot identifier (ok, s) = (ok, some identifier, s)
settle_arm slot identifier (st, s) =
    (hardware_failure, some 0, record s { entries = set s.entries slot vacant })

abbrev pub pending_entry : ℕ → ℕ → ℕ → ℕ → Entry
pending_entry deadline identifier callback context = record {
  deadline_ns = deadline;
  identifier = identifier;
  callback = callback;
  context = context;
  in_use = true;
}

-- The table with the new deadline in the slot.
unfoldable pub enter : ℕ → ℕ → ℕ → ℕ → TimerState → TimerState
enter slot deadline callback context s = record s {
  entries = set s.entries slot (pending_entry deadline s.next_identifier callback context);
  next_identifier = inc64 s.next_identifier;
}

-- The identifier goes through a pointer: `none` leaves it alone, and `given` is false for a null
-- callback or pointer.
unfoldable pub timer_arm : Bool → ℕ → ℕ → ℕ → Outside → TimerState → Status × Option ℕ × TimerState
timer_arm given deadline callback context o s =
    if not given
    then (null_argument, none, s)
    else if not s.started
    then (not_started, some 0, s)
    else if ltb deadline o.now || ltb (deadline - o.now) minimum_interval_ns
    then (bad_interval, some 0, s)
    else elim (free_slot s.entries) [
      | none ↦ (no_capacity, some 0, s)
      | some slot ↦
          settle_arm slot s.next_identifier (reprogram o (enter slot deadline callback context s))
    ]

unfoldable pub timer_cancel : ℕ → Outside → TimerState → Status × TimerState
timer_cancel identifier o s =
    if not s.started then (not_started, s) else elim (slot_of identifier s.entries) [
      | none ↦ (unknown_timer, s)
      | some slot ↦ reprogram o (record s { entries = set s.entries slot vacant })
    ]

-- A call that a callback makes.
pub data Request : Type 0 where
  arming : (deadline callback context : ℕ) (o : Outside) → Request
  cancelling : (identifier : ℕ) (o : Outside) → Request

unfoldable pub serve : Request → TimerState → TimerState
serve (arming deadline callback context o) s =
    (timer_arm (not (callback == 0)) deadline callback context o s).2
serve (cancelling identifier o) s = (timer_cancel identifier o s).1

unfoldable pub serve_all : List Request → TimerState → TimerState
serve_all [] s = s
serve_all (r ∷ rs) s = serve_all rs (serve r s)

-- The calls that each callback makes may depend on the entry that fires and on the state.
abbrev pub Behaviour : Type 0
Behaviour = Entry → TimerState → List Request

-- One round of the loop of expire_reached, for the slot that was chosen: the entry is released
-- before its callback runs.
unfoldable pub fire : Behaviour → ℕ → TimerState → TimerState
fire act slot s =
    let due = entry_at s.entries slot in
    let t = record s { entries = set s.entries slot vacant } in
    if due.callback == 0 then t else serve_all (act due t) t

-- expire_reached, with the entries that fired, in order; `none` is the end of the fuel.
unfoldable pub expire_reached : ℕ → Behaviour → ℕ → TimerState → Option (List Entry × TimerState)
expire_reached zero act now s = none
expire_reached (suc fuel) act now s = elim (choose_due now 0 none s.entries) [
  | none ↦ some ([], s)
  | some (slot, deadline) ↦ elim (expire_reached fuel act now (fire act slot s)) [
    | none ↦ none
    | some (fired, t) ↦ some (entry_at s.entries slot ∷ fired, t)
  ]
]

unfoldable pub list_count : List Entry → ℕ
list_count [] = 0
list_count (e ∷ es) = suc (list_count es)

-- The handler of the expiry interrupt; the last reading of the clock is reprogram's.
unfoldable pub on_expiry : ℕ → Behaviour → Outside → TimerState → Option TimerState
on_expiry fuel act o s = elim (expire_reached fuel act o.now s) [
  | none ↦ none
  | some (fired, t) ↦
      some (reprogram o (record t { expiry_counter = add64 t.expiry_counter (list_count fired) })).1
]

-- `allocated` and `installed` are whether the heap gave the table and the timer took the handler.
unfoldable pub timer_start : Bool → Bool → Bool → Bool → TimerState → Status × TimerState
timer_start interrupts_on clock_started allocated installed s =
    if s.started then (already_started, s) else elim s.entries [
      | e ∷ entries ↦ (already_started, s)
      | [] ↦
          if interrupts_on
          then (hardware_failure, s)
          else if not clock_started
          then (no_clock, s)
          else if not allocated
          then (no_memory, s)
          else if not installed
          then (hardware_failure, record s { entries = [] })
          else (ok, record s { entries = replicate max_pending vacant; started = true })
    ]

-- `removed` and `freed` are whether the timer dropped the handler and the heap took the table.
unfoldable pub timer_stop : Bool → Bool → Bool → Outside → TimerState → Status × TimerState
timer_stop interrupts_on removed freed o s =
    let cleared = record s {
      entries = replicate (list_count s.entries) vacant;
      programmed = if o.is_armed then none else s.programmed;
    } in
    if not s.started
    then (not_started, s)
    else if interrupts_on
    then (hardware_failure, s)
    else if o.is_armed && not o.disarms
    then (hardware_failure, s)
    else if not removed
    then (hardware_failure, cleared)
    else if not freed
    then (no_memory, cleared)
    else (ok, record cleared { entries = []; started = false })
