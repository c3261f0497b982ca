-- ===== src/Threads/Keeps.antt =====
-- Every call on a started scheduler of src/kernel/thread.c keeps it valid.
use pyrenis.Base.{
  ℕ, zero, suc, ◌+◌, ◌-◌, ◌≤◌, ◌<◌, ◌≡◌, refl, ◌∙◌, inl, inr, Bool, true, false, not, Option, none,
  some, List, arith, ◌==◌, if◌then◌else◌, if_rule, Option-cases, length, set, length-set, replicate,
  get_or-replicate,
}
use pyrenis.Pages.{Memory}
use pyrenis.Threads.State.{
  RunState, ready, exited, Thread, Scheduler, Status, ok, not_started, null_argument,
  interrupts_enabled, thread_at, no_thread, is_running, is_unused, thread_max, id_none,
}
use pyrenis.Threads.Schedule.{
  scan_ready, next_ready_slot, set_state, put_back, switch_to, switch_to_next, thread_yield,
  thread_on_interrupt_return, quantum_expired, owe_switch, thread_exit, arm_quantum,
  settle_preemption, thread_enable_preemption, thread_disable_preemption,
}
use pyrenis.Threads.Slots.{thread_at-set}
use pyrenis.Threads.Life.{
  boot, thread_start, adopt, find_unused, new_thread, admit, settle_create, thread_create,
}
use pyrenis.Threads.Stacks.{map_stack, prepare_frame}
use pyrenis.Threads.Invariant.{IsValid, recount-IsValid, switch_to-IsValid}

-- A switch to another slot is to a slot of the table, which is ready.
pub next_inside :
    (s : Scheduler) (threads : List Thread)
    → IsValid s
    → next_ready_slot s.capacity threads s.current_slot < thread_max
unfolding next_ready_slot scan_ready
next_inside s threads v = rw (v.full) (inside thread_max 1)
  where
    inside :
        (rounds step : ℕ) → scan_ready rounds step thread_max threads s.current_slot < thread_max
    inside zero step = v.inside
    inside (suc rounds) step = ground (arith, inside rounds (step + 1))

module _ (s : Scheduler) (v : IsValid s) where
  -- The table after the current thread has been marked.
  pub marked :
      (st : RunState) (i : ℕ)
      → thread_at (set_state s.current_slot st s.threads) i ≡ (
          if s.current_slot == i
          then record (thread_at s.threads s.current_slot) { state = st }
          else thread_at s.threads i)
  unfolding set_state
  marked st i = thread_at-set s.threads s.current_slot i _ (omega (arith, v.slots, v.inside))

  pub put_back_marks : put_back s.current_slot s.threads ≡ set_state s.current_slot ready s.threads
  unfolding put_back
  put_back_marks = ground (arith, v.one_running s.current_slot)

  shape : (st : RunState) → length (set_state s.current_slot st s.threads) ≡ length s.threads
  unfolding set_state
  shape st =
      length-set s.threads s.current_slot
        (record (thread_at s.threads s.current_slot) { state = st })

  -- Leaving the current slot for another, with the thread there no longer running.
  pub leave-IsValid :
      (st : RunState) (next : ℕ)
      → is_running st ≡ false
      → next < thread_max
      → IsValid (switch_to next (record s { threads = set_state s.current_slot st s.threads }))
  leave-IsValid st next r h =
      switch_to-IsValid (record s { threads = set_state s.current_slot st s.threads }) next
        (shape st ∙ v.slots) v.full h (λ i. ground (arith, marked st i, v.one_running i, r))
        (λ i. ground (arith, marked st i, v.boot_slot i, v.boot_slot s.current_slot)) v.started

  pub switch_to_next-IsValid : IsValid (switch_to_next s)
  unfolding switch_to_next
  switch_to_next-IsValid =
      let next = next_ready_slot s.capacity s.threads s.current_slot in
      if_rule IsValid (next == s.current_slot) {x = s} (λ _. v)
        λ _. rw put_back_marks (leave-IsValid ready next refl (next_inside s s.threads v))

  pub thread_yield-IsValid : IsValid (thread_yield s)
  unfolding thread_yield
  thread_yield-IsValid =
      if_rule IsValid s.active {x = switch_to_next s} (λ _. switch_to_next-IsValid) λ _. v

  pub thread_exit-IsValid : (t : Scheduler) → thread_exit s ≡ some t → IsValid t
  unfolding thread_exit
  thread_exit-IsValid t e =
      let threads = set_state s.current_slot exited s.threads in
      let next = next_ready_slot s.capacity threads s.current_slot in
      let same : switch_to next (record s { threads = threads }) ≡ t = ground (arith, e) in
      rw (← same) (leave-IsValid exited next refl (next_inside s threads v))

-- Fields that the invariant does not read may change.
pub aside :
    (s t : Scheduler)
    → IsValid s
    → t.threads ≡ s.threads
    → t.current_slot ≡ s.current_slot
    → t.capacity ≡ s.capacity
    → t.current ≡ s.current
    → t.live ≡ s.live
    → t.ready_count ≡ s.ready_count
    → t.exited_count ≡ s.exited_count
    → t.active ≡ s.active
    → IsValid t
aside s t v table slot cap now l r e a = record {
  slots = rw table v.slots;
  full = rw cap v.full;
  inside = rw slot v.inside;
  one_running = λ i. rw (table, slot) (v.one_running i);
  named = rw (now, table, slot) v.named;
  boot_slot = λ i. rw table (v.boot_slot i);
  live_count = rw (l, table) v.live_count;
  ready_total = rw (r, table) v.ready_total;
  exited_total = rw (e, table) v.exited_total;
  started = rw a v.started;
}

pub quantum_expired-IsValid :
    (armed : Option ℕ) (s t : Scheduler) → IsValid s → quantum_expired armed s ≡ some t → IsValid t
unfolding quantum_expired owe_switch
quantum_expired-IsValid armed s t v e =
    aside s t v (ground (arith, e)) (ground (arith, e)) (ground (arith, e)) (ground (arith, e))
      (ground (arith, e)) (ground (arith, e)) (ground (arith, e)) (ground (arith, e))

pub return-IsValid : (s : Scheduler) → IsValid s → IsValid (thread_on_interrupt_return s)
unfolding thread_on_interrupt_return
return-IsValid s v =
    let t : Scheduler = record s { reschedule_pending = false } in
    let w : IsValid t = aside s t v refl refl refl refl refl refl refl refl in
    if_rule IsValid (not s.reschedule_pending) {x = s} (λ _. v)
      λ _. if_rule IsValid (not s.active) {x = t} (λ _. w) λ _. switch_to_next-IsValid t w

pub enable-IsValid :
    (timer : Bool) (armed : Option ℕ) (s : Scheduler)
    → IsValid s
    → IsValid (thread_enable_preemption timer armed s).1
unfolding thread_enable_preemption settle_preemption arm_quantum
enable-IsValid timer none s v =
    aside s _ v (ground arith) (ground arith) (ground arith) (ground arith) (ground arith)
      (ground arith) (ground arith) (ground arith)
enable-IsValid timer (some i) s v =
    aside s _ v (ground arith) (ground arith) (ground arith) (ground arith) (ground arith)
      (ground arith) (ground arith) (ground arith)

pub disable-IsValid : (s : Scheduler) → IsValid s → IsValid (thread_disable_preemption s).1
unfolding thread_disable_preemption
disable-IsValid s v =
    aside s _ v (ground arith) (ground arith) (ground arith) (ground arith) (ground arith)
      (ground arith) (ground arith) (ground arith)

pub find_unused_sound :
    (rounds slot : ℕ) (threads : List Thread) {i : ℕ}
    → find_unused rounds slot threads ≡ some i
    → (slot ≤ i) × (i < slot + rounds) × (is_unused (thread_at threads i).state ≡ true)
unfolding find_unused
find_unused_sound zero slot threads e = absurd (ground arith)
find_unused_sound (suc rounds) slot threads {i} e =
    ground (arith, find_unused_sound rounds (slot + 1) threads {i = i})

-- A new thread in an unused slot other than the first.
pub admit-IsValid :
    (slot entry context : ℕ) (s : Scheduler)
    → IsValid s
    → 0 < slot
    → slot < thread_max
    → is_unused (thread_at s.threads slot).state ≡ true
    → IsValid (admit slot entry context s)
unfolding admit prepare_frame
admit-IsValid slot entry context s v p l u =
    let t : Thread = new_thread slot entry context s in
    let read : (i : ℕ)
        → thread_at (set s.threads slot t) i ≡ (if slot == i then t else thread_at s.threads i) =
      λ i. thread_at-set s.threads slot i t (omega (arith, v.slots, l)) in
    let idle : is_running (thread_at s.threads slot).state ≡ false = ground (arith, u) in
    recount-IsValid _ (length-set s.threads slot t ∙ v.slots) v.full v.inside
      (λ i. ground (arith, read i, v.one_running i, v.one_running slot, idle))
      (ground (arith, read s.current_slot, v.named, v.one_running slot, idle))
      (λ i. ground (arith, read i, v.boot_slot i, p)) v.started

settled_create :
    {W : Type 0} (slot entry context : ℕ) (s : Scheduler) (r : Status × W)
    → IsValid s
    → IsValid (admit slot entry context s)
    → IsValid (settle_create slot entry context s r).2
unfolding settle_create
settled_create slot entry context s (ok, w) v a = a
settled_create slot entry context s (st, w) v a = v

pub thread_create-IsValid :
    {W : Type 0} (m : Memory W) (given on : Bool) (entry context : ℕ) (s : Scheduler) (w : W)
    → IsValid s
    → IsValid (thread_create m given on entry context s w).2
unfolding thread_create
thread_create-IsValid {W} m given on entry context s w v =
    let P : Status × Option ℕ × Scheduler × W → Type 0 = λ r. IsValid r.2 in
    if_rule P (not given) {x = (null_argument, none, s, w)} (λ _. v)
      λ _.
        if_rule P (not s.active) {x = (not_started, some id_none, s, w)} (λ _. v)
          λ _.
            if_rule P on {x = (interrupts_enabled, some id_none, s, w)} (λ _. v)
              λ _. elim (Option-cases (find_unused (s.capacity - 1) 1 s.threads)) [
                | inl nothing ↦ rw nothing v
                | inr (slot, found) ↦
                    let (low, high, free) = find_unused_sound (s.capacity - 1) 1 s.threads found in
                    rw found (
                      settled_create slot entry context s (map_stack m slot w) v (
                        admit-IsValid slot entry context s v low (omega (arith, v.full, high))
                          free))
              ]

adopt-IsValid : (s : Scheduler) → IsValid (adopt s)
unfolding adopt
adopt-IsValid s =
    recount-IsValid _ refl refl (omega arith)
      (λ i. ground (arith, first i, get_or-replicate thread_max i no_thread)) refl
      (λ i. ground (arith, first i, get_or-replicate thread_max i no_thread)) refl
  where
    first :
        (i : ℕ)
        → thread_at (set (replicate thread_max no_thread) 0 boot) i
          ≡ (if 0 == i then boot else thread_at (replicate thread_max no_thread) i)
    first i = thread_at-set (replicate thread_max no_thread) 0 i boot (omega arith)

pub thread_start-IsValid :
    (on up allocated : Bool) (s t : Scheduler)
    → thread_start on up allocated s ≡ (ok, t)
    → IsValid t
unfolding thread_start
thread_start-IsValid on up allocated s t e =
    let same : adopt s ≡ t = ground (arith, e) in rw (← same) (adopt-IsValid s)
