-- ===== src/Threads/Slots.antt =====
-- What the table operations of src/kernel/thread.c do to each slot, and what the scan for a ready
-- slot finds.
use native.Mathlib.Decide.{ℕ_discrete}
use pyrenis.Base.{
  ℕ, zero, suc, ◌+◌, ◌%◌, ◌≤◌, ◌<◌, ◌≡◌, refl, ◌⊎◌, inl, inr, true, List, arith, ◌==◌,
  if◌then◌else◌, Bool-cases, length, set, get_or-set_self, get_or-set_ne,
}
use pyrenis.Threads.State.{Thread, thread_at, no_thread, is_ready}
use pyrenis.Threads.Schedule.{scan_ready}

-- Reading a slot after writing one.
pub thread_at-set :
    (threads : List Thread) (i j : ℕ) (t : Thread)
    → i < length threads
    → thread_at (set threads i t) j ≡ (if i == j then t else thread_at threads j)
thread_at-set threads i j t h = elim (ℕ_discrete i j) [
  | yes e ↦ ground (arith, e, get_or-set_self threads i t no_thread h)
  | no ne ↦ ground (arith, ne, get_or-set_ne threads i j t no_thread ne)
]

-- The slot `step` places after `from`.
abbrev pub after : ℕ → ℕ → ℕ → ℕ
after capacity from step = (from + step) % capacity

-- The scan stops at the first ready slot, no later than at any ready slot it passes.
pub scan_ready_first :
    (rounds step capacity from j : ℕ) (threads : List Thread)
    → step ≤ j
    → j < step + rounds
    → is_ready (thread_at threads (after capacity from j)).state ≡ true
    → (d : ℕ) × (step ≤ d)
      × (d ≤ j)
      × (is_ready (thread_at threads (after capacity from d)).state ≡ true)
      × (scan_ready rounds step capacity threads from ≡ after capacity from d)
unfolding scan_ready
scan_ready_first zero step capacity from j threads l h e = absurd (omega arith)
scan_ready_first (suc rounds) step capacity from j threads l h e =
    elim (Bool-cases (is_ready (thread_at threads (after capacity from step)).state)) [
      | inl now ↦ (step, omega arith, l, now, ground (arith, now))
      | inr later ↦ elim (ℕ_discrete step j) [
        | yes same ↦ absurd (ground (arith, later, e, same))
        | no ne ↦
            let (d, low, high, r, at) =
              scan_ready_first rounds (step + 1) capacity from j threads (omega arith) (omega arith)
                e in
            (d, omega arith, high, r, ground (arith, later, at))
      ]
    ]

-- Whatever it answers is ready, or the start itself.
pub scan_ready_sound :
    (rounds step capacity from : ℕ) (threads : List Thread)
    → (scan_ready rounds step capacity threads from ≡ from)
      ⊎ (is_ready (thread_at threads (scan_ready rounds step capacity threads from)).state ≡ true)
unfolding scan_ready
scan_ready_sound zero step capacity from threads = inl refl
scan_ready_sound (suc rounds) step capacity from threads =
    elim (Bool-cases (is_ready (thread_at threads (after capacity from step)).state)) [
      | inl now ↦ inr (ground (arith, now))
      | inr later ↦ ground (arith, later, scan_ready_sound rounds (step + 1) capacity from threads)
    ]
