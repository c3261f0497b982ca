-- ===== src/Threads/Join.antt =====
-- thread_join of src/kernel/thread.c.
use pyrenis.Base.{ℕ, zero, suc, not, Option, none, some, ◌==◌, if◌then◌else◌}
use pyrenis.Threads.State.{
  Scheduler, Status, ok, not_started, bad_identifier, thread_at, is_exited, find,
}
use pyrenis.Threads.Schedule.{thread_yield}

-- The wait for the thread in the slot: `resumed n` is what the other threads have made of the
-- state when yield `n` comes back. `none` is the end of the fuel.
unfoldable pub join_from :
    ℕ → (ℕ → Scheduler → Scheduler) → ℕ → ℕ → Scheduler → Option (Status × Scheduler)
join_from zero resumed n slot s = none
join_from (suc fuel) resumed n slot s =
    let rest = join_from fuel resumed (suc n) slot (resumed n (thread_yield s)) in
    if is_exited (thread_at s.threads slot).state then some (ok, s) else rest

unfoldable pub thread_join :
    ℕ → (ℕ → Scheduler → Scheduler) → ℕ → Scheduler → Option (Status × Scheduler)
thread_join fuel resumed identifier s =
    if not s.active then some (not_started, s) else elim (find identifier s.threads) [
      | none ↦ some (bad_identifier, s)
      | some slot ↦
          if (thread_at s.threads slot).identifier
            == (thread_at s.threads s.current_slot).identifier
          then some (bad_identifier, s)
          else join_from fuel resumed 0 slot s
    ]
