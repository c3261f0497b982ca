-- ===== src/Threads/Schedule.antt =====
-- The scheduling policy of src/kernel/thread.c: next_ready_slot to thread_exit. What
-- thread_switch_context does to the processor is not part of the state; a step ends where the
-- next thread has been chosen and marked. `none` is a panic of the kernel.

use pyrenis.Base.{
  ℕ, zero, suc, ◌+◌, ◌%◌, Bool, true, false, not, ◌||◌, Option, none, some, List, [], ◌∷◌, ◌==◌,
  if◌then◌else◌, set,
}
use pyrenis.Base.Words.{inc64}
use pyrenis.Threads.State.{
  RunState, unused, ready, running, exited, Thread, Scheduler, Status, ok, not_started, no_timer,
  no_quantum, already_preemptive, not_preemptive, id_none, is_ready, is_running, thread_at,
}

-- The loop of next_ready_slot: `step` counts up from 1 over the capacity.
unfoldable pub scan_ready : ℕ → ℕ → ℕ → List Thread → ℕ → ℕ
scan_ready zero step capacity threads from = from
scan_ready (suc rounds) step capacity threads from =
    let slot = (from + step) % capacity in
    elim (is_ready (thread_at threads slot).state) [
      | true ↦ slot
      | false ↦ scan_ready rounds (step + 1) capacity threads from
    ]

unfoldable pub next_ready_slot : ℕ → List Thread → ℕ → ℕ
next_ready_slot capacity threads from = scan_ready capacity 1 capacity threads from

unfoldable pub account_switch : ℕ → Scheduler → Scheduler
account_switch to s =
    let t = thread_at s.threads to in
    record s {
      threads = set s.threads to (record t { switches = inc64 t.switches });
      switches = inc64 s.switches;
      current = t.identifier;
      current_slot = to;
    }

-- The three counts of recount over the table.
pub record Tally : Type 0 where
  pub live : ℕ
  pub ready_count : ℕ
  pub exited_count : ℕ

unfoldable pub tally_one : RunState → Tally → Tally
tally_one ready c = record c { ready_count = inc64 c.ready_count; live = inc64 c.live }
tally_one running c = record c { live = inc64 c.live }
tally_one exited c = record c { exited_count = inc64 c.exited_count }
tally_one unused c = c

unfoldable pub tally : List Thread → Tally → Tally
tally [] c = c
tally (t ∷ threads) c = tally threads (tally_one t.state c)

unfoldable pub recount : Scheduler → Scheduler
recount s =
    let c = tally s.threads (record { live = 0; ready_count = 0; exited_count = 0 }) in
    record s { live = c.live; ready_count = c.ready_count; exited_count = c.exited_count }

unfoldable pub set_state : ℕ → RunState → List Thread → List Thread
set_state slot st threads = set threads slot (record (thread_at threads slot) { state = st })

-- A running thread goes back to ready.
unfoldable pub put_back : ℕ → List Thread → List Thread
put_back slot threads =
    if is_running (thread_at threads slot).state then set_state slot ready threads else threads

unfoldable pub switch_to : ℕ → Scheduler → Scheduler
switch_to next s =
    recount (account_switch next (record s { threads = set_state next running s.threads }))

unfoldable pub switch_to_next : Scheduler → Scheduler
switch_to_next s =
    let next = next_ready_slot s.capacity s.threads s.current_slot in
    if next == s.current_slot
    then s
    else switch_to next (record s { threads = put_back s.current_slot s.threads })

unfoldable pub thread_yield : Scheduler → Scheduler
thread_yield s = if s.active then switch_to_next s else s

-- The answer of timer_arm is the identifier of the new deadline, or `none`.
unfoldable pub arm_quantum : Option ℕ → Scheduler → Status × Scheduler
arm_quantum none s = (no_quantum, record s { quantum_identifier = id_none })
arm_quantum (some identifier) s = (ok, record s { quantum_identifier = identifier })

-- Whether a switch is owed when the quantum ends.
unfoldable pub owe_switch : Scheduler → Scheduler
owe_switch s =
    if next_ready_slot s.capacity s.threads s.current_slot == s.current_slot
    then s
    else record s { reschedule_pending = true; preemptions = inc64 s.preemptions }

unfoldable pub quantum_expired : Option ℕ → Scheduler → Option Scheduler
quantum_expired armed s =
    let idle = record s { quantum_identifier = id_none } in
    if not s.active || not s.preemptive then some idle else elim armed [
      | none ↦ none
      | some identifier ↦ some (owe_switch (record idle { quantum_identifier = identifier }))
    ]

unfoldable pub thread_on_interrupt_return : Scheduler → Scheduler
thread_on_interrupt_return s =
    let t = record s { reschedule_pending = false } in
    if not s.reschedule_pending then s else if not s.active then t else switch_to_next t

-- A quantum that cannot be armed leaves the scheduler cooperative.
unfoldable pub settle_preemption : Status × Scheduler → Status × Scheduler
settle_preemption (ok, s) = (ok, s)
settle_preemption (st, s) = (st, record s { preemptive = false })

unfoldable pub thread_enable_preemption : Bool → Option ℕ → Scheduler → Status × Scheduler
thread_enable_preemption timer_started armed s =
    if not s.active
    then (not_started, s)
    else if s.preemptive
    then (already_preemptive, s)
    else if not timer_started
    then (no_timer, s)
    else settle_preemption (arm_quantum armed (record s { preemptive = true }))

-- The deadline is cancelled in the timer, whose answer is not used.
unfoldable pub thread_disable_preemption : Scheduler → Status × Scheduler
thread_disable_preemption s =
    if not s.active then (not_started, s) else if not s.preemptive then (not_preemptive, s) else (
      ok,
      record s { preemptive = false; quantum_identifier = id_none; reschedule_pending = false },
    )

unfoldable pub thread_exit : Scheduler → Option Scheduler
thread_exit s =
    let threads = set_state s.current_slot exited s.threads in
    let next = next_ready_slot s.capacity threads s.current_slot in
    if not s.active
    then none
    else if (thread_at s.threads s.current_slot).boot_thread
    then none
    else if next == s.current_slot
    then none
    else some (switch_to next (record s { threads = threads }))
