-- ===== src/Threads/Life.antt =====
-- thread_start, thread_create, thread_stop and thread_report of src/kernel/thread.c. The heap's
-- answers are arguments: whether the table was allocated, and whether it was freed.
use pyrenis.Base.{
  ℕ, zero, suc, ◌+◌, ◌-◌, Bool, true, false, not, ◌||◌, Option, none, some, List, [], ◌==◌,
  if◌then◌else◌, set, replicate,
}
use pyrenis.Base.Words.{add64, inc64}
use pyrenis.Pages.{Memory}
use pyrenis.Threads.State.{
  Status, ok, null_argument, already_started, not_started, interrupts_enabled, no_heap, no_memory,
  no_capacity, bad_identifier, not_the_boot_thread, threads_still_runnable, validation_failure,
  RunState, ready, running, Thread, Scheduler, no_thread, thread_max, stack_pages, id_none,
  is_unused, is_ready, is_running, is_exited, thread_at, slot_guard_page, slot_stack_base,
  slot_stack_top, find,
}
use pyrenis.Threads.Schedule.{recount, thread_disable_preemption}
use pyrenis.Threads.Stacks.{map_stack, unmap_stack, prepare_frame}

-- The boot thread, which runs already.
abbrev pub boot : Thread
boot = record no_thread { identifier = 1; state = running; boot_thread = true }

unfoldable pub adopt : Scheduler → Scheduler
adopt s = recount (record s {
  threads = set (replicate thread_max no_thread) 0 boot;
  capacity = thread_max;
  switches = 0;
  stack_frames = 0;
  next_identifier = 2;
  current_slot = 0;
  current = 1;
  preemptions = 0;
  preemptive = false;
  reschedule_pending = false;
  quantum_identifier = id_none;
  active = true;
})

unfoldable pub thread_start : Bool → Bool → Bool → Scheduler → Status × Scheduler
thread_start interrupts_on heap_and_paging allocated s =
    if s.active
    then (already_started, s)
    else if interrupts_on
    then (interrupts_enabled, s)
    else if not heap_and_paging
    then (no_heap, s)
    else if not allocated
    then (no_memory, s)
    else (ok, adopt s)

-- The scan of thread_create over the slots from 1 on.
unfoldable pub find_unused : ℕ → ℕ → List Thread → Option ℕ
find_unused zero slot threads = none
find_unused (suc rounds) slot threads = elim (is_unused (thread_at threads slot).state) [
  | true ↦ some slot
  | false ↦ find_unused rounds (slot + 1) threads
]

-- The new thread in the slot, and the state with it.
abbrev pub new_thread : ℕ → ℕ → ℕ → Scheduler → Thread
new_thread slot entry context s =
    record (prepare_frame (record (thread_at s.threads slot) {
      identifier = s.next_identifier;
      entry = entry;
      context = context;
      stack_base = slot_stack_base slot;
      stack_top = slot_stack_top slot;
      switches = 0;
      boot_thread = false;
    })) { state = ready }

unfoldable pub admit : ℕ → ℕ → ℕ → Scheduler → Scheduler
admit slot entry context s = recount (record s {
  threads = set s.threads slot (new_thread slot entry context s);
  next_identifier = inc64 s.next_identifier;
  stack_frames = add64 s.stack_frames stack_pages;
})

-- The identifier goes through a pointer: `none` leaves it alone.
unfoldable pub settle_create :
    {W : Type 0} → ℕ → ℕ → ℕ → Scheduler → Status × W → Status × Option ℕ × Scheduler × W
settle_create slot entry context s (ok, w) =
    (ok, some s.next_identifier, admit slot entry context s, w)
settle_create slot entry context s (st, w) = (st, some id_none, s, w)

module _ {W : Type 0} (m : Memory W) where
  unfoldable pub thread_create :
      Bool → Bool → ℕ → ℕ → Scheduler → W → Status × Option ℕ × Scheduler × W
  thread_create given interrupts_on entry context s w =
      if not given
      then (null_argument, none, s, w)
      else if not s.active
      then (not_started, some id_none, s, w)
      else if interrupts_on
      then (interrupts_enabled, some id_none, s, w)
      else elim (find_unused (s.capacity - 1) 1 s.threads) [
        | none ↦ (no_capacity, some id_none, s, w)
        | some slot ↦ settle_create slot entry context s (map_stack m slot w)
      ]

-- Whether some slot from `slot` on could still run.
unfoldable pub any_runnable : ℕ → ℕ → List Thread → Bool
any_runnable zero slot threads = false
any_runnable (suc rounds) slot threads =
    elim (is_ready (thread_at threads slot).state || is_running (thread_at threads slot).state) [
      | true ↦ true
      | false ↦ any_runnable rounds (slot + 1) threads
    ]

-- The state that thread_stop leaves at its end.
abbrev pub stopped : Scheduler → Scheduler
stopped s = record s {
  threads = [];
  active = false;
  preemptive = false;
  reschedule_pending = false;
  quantum_identifier = id_none;
  capacity = 0;
  live = 0;
  ready_count = 0;
  exited_count = 0;
  current = id_none;
  current_slot = 0;
}

module _ {W : Type 0} (m : Memory W) where
  -- The loop that takes the stacks of the exited threads back.
  unfoldable pub reap : ℕ → ℕ → Scheduler → W → Status × Scheduler × W
  reap zero slot s w = (ok, s, w)
  reap (suc rounds) slot s w = elim (is_exited (thread_at s.threads slot).state) [
    | false ↦ reap rounds (slot + 1) s w
    | true ↦
        let (st, frames, w') = unmap_stack m slot (s.stack_frames, w) in
        elim st [
          | ok ↦
              reap rounds (slot + 1)
                (record s { stack_frames = frames; threads = set s.threads slot no_thread }) w'
          | other ↦ (other, record s { stack_frames = frames }, w')
        ]
  ]

  -- The end of thread_stop, after the stacks.
  unfoldable pub settle_stop : Bool → Status × Scheduler × W → Status × Scheduler × W
  settle_stop freed (ok, s, w) =
      if not (s.stack_frames == 0)
      then (validation_failure, s, w)
      else if not freed
      then (validation_failure, s, w)
      else (ok, stopped s, w)
  settle_stop freed (st, s, w) = (st, s, w)

  unfoldable pub thread_stop : Bool → Bool → Scheduler → W → Status × Scheduler × W
  thread_stop interrupts_on freed s w =
      let t = (thread_disable_preemption s).1 in
      if not s.active
      then (not_started, s, w)
      else if interrupts_on
      then (interrupts_enabled, s, w)
      else if not (thread_at s.threads s.current_slot).boot_thread
      then (not_the_boot_thread, s, w)
      else if any_runnable (s.capacity - 1) 1 t.threads
      then (threads_still_runnable, t, w)
      else settle_stop freed (reap (t.capacity - 1) 1 t w)

-- `struct thread_state_report`
pub record Report : Type 0 where
  pub identifier : ℕ
  pub stack_base : ℕ
  pub stack_top : ℕ
  pub guard_page : ℕ
  pub switches : ℕ
  pub state : RunState
  pub boot_thread : Bool

unfoldable pub thread_report : Bool → ℕ → Scheduler → Status × Option Report
thread_report given identifier s =
    if not given
    then (null_argument, none)
    else if not s.active
    then (not_started, none)
    else elim (find identifier s.threads) [
      | none ↦ (bad_identifier, none)
      | some slot ↦
          let t = thread_at s.threads slot in
          (
            ok,
            some (record {
              identifier = t.identifier;
              stack_base = t.stack_base;
              stack_top = t.stack_top;
              guard_page = if t.boot_thread then 0 else slot_guard_page slot;
              switches = t.switches;
              state = t.state;
              boot_thread = t.boot_thread;
            }),
          )
    ]
