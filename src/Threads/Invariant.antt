-- ===== src/Threads/Invariant.antt =====
-- What holds of a started scheduler between calls, and what each call keeps.
use pyrenis.Base.{
  ℕ, ◌+◌, ◌^◌, ◌<◌, ◌≡◌, ◌∙◌, Bool, true, false, ◌||◌, List, [], ◌∷◌, arith, ◌==◌, if◌then◌else◌,
  length, set, length-set,
}
use pyrenis.Base.Words.{inc64}
use pyrenis.Threads.State.{
  RunState, running, Thread, Scheduler, thread_at, is_ready, is_running, is_exited, thread_max,
}
use pyrenis.Threads.Schedule.{
  account_switch, Tally, tally, tally_one, recount, set_state, switch_to,
}
use pyrenis.Threads.Slots.{thread_at-set}

-- How many threads of the table are in a state.
abbrev pub how_many : (RunState → Bool) → List Thread → ℕ
how_many p [] = 0
how_many p (t ∷ threads) = (if p t.state then 1 else 0) + how_many p threads

abbrev pub is_live : RunState → Bool
is_live st = is_ready st || is_running st

-- The table has its eight slots; exactly the current one runs, and `current` is its identifier;
-- exactly slot 0 is the boot thread; the three counts are those of the table.
pub record IsValid (s : Scheduler) : Type 0 where
  pub slots : length s.threads ≡ thread_max
  pub full : s.capacity ≡ thread_max
  pub inside : s.current_slot < thread_max
  pub one_running : (i : ℕ) → is_running (thread_at s.threads i).state ≡ (i == s.current_slot)
  pub named : s.current ≡ (thread_at s.threads s.current_slot).identifier
  pub boot_slot : (i : ℕ) → (thread_at s.threads i).boot_thread ≡ (i == 0)
  pub live_count : s.live ≡ how_many is_live s.threads
  pub ready_total : s.ready_count ≡ how_many is_ready s.threads
  pub exited_total : s.exited_count ≡ how_many is_exited s.threads
  pub started : s.active ≡ true

-- The counts that a tally gives.
tally_live :
    (threads : List Thread) (c : Tally)
    → c.live + length threads < 2 ^ 64
    → (tally threads c).live ≡ c.live + how_many is_live threads
unfolding tally tally_one
tally_live [] c h = omega arith
tally_live (t ∷ threads) c h = ground (arith, tally_live threads (tally_one t.state c))

tally_ready :
    (threads : List Thread) (c : Tally)
    → c.ready_count + length threads < 2 ^ 64
    → (tally threads c).ready_count ≡ c.ready_count + how_many is_ready threads
unfolding tally tally_one
tally_ready [] c h = omega arith
tally_ready (t ∷ threads) c h = ground (arith, tally_ready threads (tally_one t.state c))

tally_exited :
    (threads : List Thread) (c : Tally)
    → c.exited_count + length threads < 2 ^ 64
    → (tally threads c).exited_count ≡ c.exited_count + how_many is_exited threads
unfolding tally tally_one
tally_exited [] c h = omega arith
tally_exited (t ∷ threads) c h = ground (arith, tally_exited threads (tally_one t.state c))

-- After recount the counts are right; the rest is as before.
pub recount-IsValid :
    (s : Scheduler)
    → length s.threads ≡ thread_max
    → s.capacity ≡ thread_max
    → s.current_slot < thread_max
    → ((i : ℕ) → is_running (thread_at s.threads i).state ≡ (i == s.current_slot))
    → s.current ≡ (thread_at s.threads s.current_slot).identifier
    → ((i : ℕ) → (thread_at s.threads i).boot_thread ≡ (i == 0))
    → s.active ≡ true
    → IsValid (recount s)
unfolding recount
recount-IsValid s l c i r n b a =
    let zeros : Tally = record { live = 0; ready_count = 0; exited_count = 0 } in
    record {
      slots = l;
      full = c;
      inside = i;
      one_running = r;
      named = n;
      boot_slot = b;
      live_count = omega (arith, tally_live s.threads zeros (omega (arith, l)));
      ready_total = omega (arith, tally_ready s.threads zeros (omega (arith, l)));
      exited_total = omega (arith, tally_exited s.threads zeros (omega (arith, l)));
      started = a;
    }

-- A switch to another slot, from a table where none runs but the slot may be ready.
pub switch_to-IsValid :
    (s : Scheduler) (next : ℕ)
    → length s.threads ≡ thread_max
    → s.capacity ≡ thread_max
    → next < thread_max
    → ((i : ℕ) → is_running (thread_at s.threads i).state ≡ false)
    → ((i : ℕ) → (thread_at s.threads i).boot_thread ≡ (i == 0))
    → s.active ≡ true
    → IsValid (switch_to next s)
unfolding switch_to account_switch set_state
switch_to-IsValid s next l c h none_running b a =
    let t : Thread = record (thread_at s.threads next) { state = running } in
    let marked : List Thread = set s.threads next t in
    let len : length marked ≡ length s.threads = length-set s.threads next t in
    let u : Thread = record (thread_at marked next) {
      switches = inc64 (thread_at marked next).switches;
    } in
    let read : (i : ℕ) → thread_at marked i ≡ (if next == i then t else thread_at s.threads i) =
      λ i. thread_at-set s.threads next i t (omega (arith, l, h)) in
    let reread : (i : ℕ)
        → thread_at (set marked next u) i ≡ (if next == i then u else thread_at marked i) =
      λ i. thread_at-set marked next i u (omega (arith, l, h, len)) in
    recount-IsValid _ (length-set marked next u ∙ len ∙ l) c h
      (λ i. ground (arith, read i, reread i, read next, none_running i))
      (ground (arith, reread next)) (λ i. ground (arith, read i, reread i, read next, b i)) a
