-- ===== src/Threads/Verified.antt =====
-- What an answer of thread_verify of src/kernel/thread.c says of the scheduler and of the address
-- space.
use mathlib.Core.Path.{subst}
use pyrenis.Base.{
  ℕ, zero, suc, ◌+◌, ◌^◌, ◌≤◌, ◌<◌, ◌≡◌, ◌↔◌, refl, Bool, true, false, not, List, [], ◌∷◌, arith,
  ltb, ◌==◌, length,
}
use pyrenis.Base.Words.{add64}
use pyrenis.Pages.{Memory}
use pyrenis.Threads.State.{
  RunState, Thread, Scheduler, ok, thread_at, is_running, is_exited, is_unused,
}
use pyrenis.Threads.Invariant.{IsValid, how_many, is_live}
use pyrenis.Threads.Verify.{is_used, is_none, settle_verify, thread_verify, verify_from_counts}
use pyrenis.Threads.Sound.{IsSound, all_sound-IsSound, IsSound-all_sound}

module _ {W : Type 0} (m : Memory W) (w : W) where
  -- What thread_verify looks for in the whole table.
  pub record IsVerified (s : Scheduler) : Type 0 where
    pub started : s.active ≡ true
    pub table : 0 < length s.threads
    pub sound :
        (i : ℕ)
        → i < length s.threads
        → is_used (thread_at s.threads i).state ≡ true
        → IsSound m w i (thread_at s.threads i)
    pub one_runs : how_many is_running s.threads ≡ 1
    pub counted : how_many is_used s.threads ≡ add64 s.live s.exited_count

  filled : (threads : List Thread) → is_none threads ≡ not (ltb 0 (length threads))
  filled [] = refl
  filled (t ∷ threads) = ground arith

  -- For any scheduler with a table shorter than 2^64 and over any page tables, thread_verify
  -- answers ok exactly when the scheduler is started, its table is not empty, one thread runs, the
  -- slots in use are as many as the sum of its live and exited counts, modulo 2^64, and every slot
  -- in use is sound: the boot thread stands in slot 0 without a stack, and any other has the stack
  -- of its slot, mapped writable at the lowest level above an unmapped page, with its pointer
  -- inside while it is ready.
  pub thread_verify_exact :
      (s : Scheduler) → length s.threads < 2 ^ 64 → (thread_verify m w s ≡ ok) ↔ IsVerified s
  unfolding thread_verify settle_verify
  thread_verify_exact s l =
      let counts = verify_from_counts m w s.threads 0 0 0 (omega (arith, l)) (omega (arith, l)) in
      let held = filled s.threads in
      (
        λ e. record {
          started = ground (arith, counts, held, e);
          table = ground (arith, counts, held, e);
          sound = λ i inside u.
              let same : 0 + i ≡ i = omega arith in
              subst (λ k. IsSound m w k (thread_at s.threads i)) same
                (all_sound-IsSound m w s.threads 0 (ground (arith, counts, held, e)) i inside u);
          one_runs = ground (arith, counts, held, e);
          counted = ground (arith, counts, held, e);
        },
        λ v.
            let sound = IsSound-all_sound m w s.threads 0 λ i inside u.
              let same : i ≡ 0 + i = omega arith in
              subst (λ k. IsSound m w k (thread_at s.threads i)) same (v.sound i inside u) in
            ground (arith, counts, held, sound, v.started, v.table, v.one_runs, v.counted),
      )

how_many_le : (p : RunState → Bool) (threads : List Thread) → how_many p threads ≤ length threads
how_many_le p [] = omega arith
how_many_le p (t ∷ threads) = ground (arith, how_many_le p threads)

used_split :
    (threads : List Thread)
    → how_many (λ st. not (is_unused st)) threads
      ≡ how_many is_live threads + how_many is_exited threads
used_split [] = refl
used_split (t ∷ threads) = ground (arith, used_split threads)

none_running :
    (threads : List Thread)
    → ((i : ℕ) → is_running (thread_at threads i).state ≡ false)
    → how_many is_running threads ≡ 0
none_running [] h = refl
none_running (t ∷ threads) h = ground (arith, h 0, none_running threads λ i. h (suc i))

one_running_count :
    (threads : List Thread) (c : ℕ)
    → c < length threads
    → ((i : ℕ) → is_running (thread_at threads i).state ≡ (i == c))
    → how_many is_running threads ≡ 1
one_running_count [] c l h = absurd (omega (arith, l))
one_running_count (t ∷ threads) zero l h =
    ground (arith, h 0, none_running threads λ i. ground (arith, h (suc i)))
one_running_count (t ∷ threads) (suc c) l h =
    ground
      (arith, h 0, one_running_count threads c (omega (arith, l)) λ i. ground (arith, h (suc i)))

module _ {W : Type 0} (m : Memory W) (w : W) where
  -- On a valid scheduler, over any page tables, thread_verify answers ok exactly when every slot
  -- in use is sound: its counts always agree.
  thread_verify-IsValid :
      (s : Scheduler)
      → IsValid s
      → (thread_verify m w s ≡ ok) ↔ (
          (i : ℕ)
          → i < length s.threads
          → is_used (thread_at s.threads i).state ≡ true
          → IsSound m w i (thread_at s.threads i))
  thread_verify-IsValid s v =
      let whole = thread_verify_exact m w s (omega (arith, v.slots)) in
      let runs =
        one_running_count s.threads s.current_slot (omega (arith, v.slots, v.inside))
          v.one_running in
      let split = used_split s.threads in
      let few = how_many_le is_live s.threads in
      let done = how_many_le is_exited s.threads in
      (
        λ e. (whole.0 e).sound,
        λ h. whole.1 (record {
          started = v.started;
          table = omega (arith, v.slots);
          sound = h;
          one_runs = runs;
          counted = ground (arith, split, few, done, v.slots, v.live_count, v.exited_total);
        }),
      )
