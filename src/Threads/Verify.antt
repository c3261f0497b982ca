-- ===== src/Threads/Verify.antt =====
-- thread_verify of src/kernel/thread.c. The table holds `capacity` entries.
use pyrenis.Base.{
  ℕ, zero, suc, ◌+◌, ◌^◌, ◌<◌, ◌≡◌, Bool, true, false, not, ◌&&◌, ◌||◌, Option, none, some, List,
  [], ◌∷◌, arith, leb, ◌==◌, if◌then◌else◌, length,
}
use pyrenis.Base.Words.{add64, inc64}
use pyrenis.Pages.{Memory, Translation, unmapped, mapped, page_bytes, paging_write}
use pyrenis.Threads.State.{
  RunState, Thread, Scheduler, Status, ok, not_started, validation_failure, is_running, is_exited,
  is_unused, stack_pages, slot_guard_page, slot_stack_base, slot_stack_top,
}
use pyrenis.Threads.Invariant.{how_many}

abbrev pub is_absent : Translation → Bool
is_absent unmapped = true
is_absent _ = false

abbrev pub is_stack_page : Translation → Bool
is_stack_page (mapped physical permissions level) = permissions == paging_write && level == 1
is_stack_page _ = false

abbrev pub is_none : List Thread → Bool
is_none [] = true
is_none (t ∷ threads) = false

abbrev pub is_used : RunState → Bool
is_used st = not (is_unused st)

module _ {W : Type 0} (m : Memory W) (w : W) where
  unfoldable pub pages_present : ℕ → ℕ → Bool
  pages_present zero address = true
  pages_present (suc rounds) address = elim (is_stack_page (m.translate address w)) [
    | true ↦ pages_present rounds (address + page_bytes)
    | false ↦ false
  ]

  -- The checks of one slot that is in use.
  unfoldable pub slot_is_sound : ℕ → Thread → Bool
  slot_is_sound slot t =
      if t.boot_thread
      then slot == 0 && t.stack_top == 0
      else t.stack_base == slot_stack_base slot
        && (t.stack_top == slot_stack_top slot
            && (is_absent (m.translate (slot_guard_page slot) w)
                && (pages_present stack_pages t.stack_base
                    && (is_exited t.state
                        || (is_running t.state
                            || (leb t.stack_base t.stack_pointer
                                && leb t.stack_pointer t.stack_top))))))

  -- The loop over the table, with how many are in use and how many run; `none` is a failed check.
  unfoldable pub verify_from : List Thread → ℕ → ℕ → ℕ → Option (ℕ × ℕ)
  verify_from [] slot live running = some (live, running)
  verify_from (t ∷ threads) slot live running =
      let skipped = verify_from threads (suc slot) live running in
      let counted =
        verify_from threads (suc slot) (inc64 live)
          (if is_running t.state then inc64 running else running) in
      if is_unused t.state then skipped else if slot_is_sound slot t then counted else none

  unfoldable pub settle_verify : Scheduler → Option (ℕ × ℕ) → Status
  settle_verify s none = validation_failure
  settle_verify s (some (live, running)) =
      if not (running == 1) || not (live == add64 s.live s.exited_count)
      then validation_failure
      else ok

  unfoldable pub thread_verify : Scheduler → Status
  thread_verify s =
      if not s.active
      then not_started
      else if is_none s.threads
      then validation_failure
      else settle_verify s (verify_from s.threads 0 0 0)

  -- Every slot in use passes its checks.
  unfoldable pub all_sound : ℕ → List Thread → Bool
  all_sound slot [] = true
  all_sound slot (t ∷ threads) =
      (is_unused t.state || slot_is_sound slot t) && all_sound (suc slot) threads

  pub verify_from_counts :
      (threads : List Thread) (slot live running : ℕ)
      → live + length threads < 2 ^ 64
      → running + length threads < 2 ^ 64
      → verify_from threads slot live running ≡ (
          if all_sound slot threads
          then some (live + how_many is_used threads, running + how_many is_running threads)
          else none)
  unfolding verify_from all_sound
  verify_from_counts [] slot live running l r = ground arith
  verify_from_counts (t ∷ threads) slot live running l r =
      let skipped =
        verify_from_counts threads (suc slot) live running (omega (arith, l)) (omega (arith, r)) in
      let counted_still =
        verify_from_counts threads (suc slot) (inc64 live) running (omega (arith, l))
          (omega (arith, r)) in
      let counted_running =
        verify_from_counts threads (suc slot) (inc64 live) (inc64 running) (omega (arith, l))
          (omega (arith, r)) in
      ground (arith, l, r, skipped, counted_still, counted_running)
