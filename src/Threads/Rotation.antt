-- ===== src/Threads/Rotation.antt =====
-- The rotation of src/kernel/thread.c: each turn that is given away brings a ready thread closer
-- to running.
use native.Mathlib.Decide.{ℕ_discrete}
use pyrenis.Base.{
  ℕ, ◌+◌, ◌-◌, ◌%◌, ◌<◌, ◌≡◌, ◌≢◌, refl, ◌∙◌, ◌⊎◌, inl, inr, Bool, true, not, Option, none, some,
  List, arith, ◌==◌, if◌then◌else◌, if_rule, Option-cases, length, set, length-set,
}
use pyrenis.Base.Words.{inc64}
use pyrenis.Threads.State.{
  RunState, ready, running, exited, Thread, Scheduler, Status, ok, null_argument, not_started,
  interrupts_enabled, id_none, is_unused, thread_at, is_ready, thread_max,
}
use pyrenis.Threads.Schedule.{
  next_ready_slot, account_switch, recount, set_state, switch_to, switch_to_next, thread_exit,
}
use pyrenis.Threads.Slots.{thread_at-set, after, scan_ready_first}
use pyrenis.Threads.Invariant.{IsValid}
use pyrenis.Pages.{Memory}
use pyrenis.Threads.Life.{find_unused, new_thread, admit, settle_create, thread_create}
use pyrenis.Threads.Stacks.{map_stack}
use pyrenis.Threads.Keeps.{find_unused_sound, marked, put_back_marks, next_inside}

-- How many places after `from` the slot `k` is.
abbrev pub distance : ℕ → ℕ → ℕ
distance from k = (k + thread_max - from) % thread_max

-- The next slot is `k` itself, or one that is nearer to it.
pub next_closer :
    (s : Scheduler) (threads : List Thread) (k : ℕ)
    → IsValid s
    → k < thread_max
    → k ≢ s.current_slot
    → is_ready (thread_at threads k).state ≡ true
    → (next_ready_slot s.capacity threads s.current_slot ≢ s.current_slot)
      × (distance (next_ready_slot s.capacity threads s.current_slot) k < distance s.current_slot k)
unfolding next_ready_slot
next_closer s threads k v l ne r =
    let j = distance s.current_slot k in
    let at : after thread_max s.current_slot j ≡ k = omega (arith, v.inside, l, ne) in
    let (d, low, high, _, e) =
      scan_ready_first thread_max 1 thread_max s.current_slot j threads
        (omega (arith, v.inside, l, ne)) (omega (arith, v.inside, l)) (rw at r) in
    rw (v.full, e)
      (λ q. omega (arith, v.inside, l, ne, low, high, q), omega (arith, v.inside, l, ne, low, high))

-- The slot that is switched to runs; another keeps its state.
pub switch_to-states :
    (s : Scheduler) (next j : ℕ)
    → next < length s.threads
    → (thread_at (switch_to next s).threads j).state
      ≡ (if next == j then running else (thread_at s.threads j).state)
unfolding switch_to account_switch set_state recount
switch_to-states s next j h =
    let t : Thread = record (thread_at s.threads next) { state = running } in
    let table : List Thread = set s.threads next t in
    let u : Thread = record (thread_at table next) {
      switches = inc64 (thread_at table next).switches;
    } in
    ground (
      arith,
      thread_at-set s.threads next j t h,
      thread_at-set s.threads next next t h,
      thread_at-set table next j u (omega (arith, h, length-set s.threads next t)),
    )

switch_to_slot : (s : Scheduler) (next : ℕ) → (switch_to next s).current_slot ≡ next
unfolding switch_to account_switch recount
switch_to_slot s next = refl

-- After a turn is given away, slot `k` runs, or it is still ready and nearer.
unfoldable pub Closer : ℕ → Scheduler → Scheduler → Type 0
Closer k s t =
    (t.current_slot ≡ k)
    ⊎ ((is_ready (thread_at t.threads k).state ≡ true)
        × (distance t.current_slot k < distance s.current_slot k))

-- A ready slot is not the current one.
pub ready_elsewhere :
    (s : Scheduler) (k : ℕ)
    → IsValid s
    → is_ready (thread_at s.threads k).state ≡ true
    → k ≢ s.current_slot
ready_elsewhere s k v r e = ground (arith, v.one_running k, r, e)

module _ (s : Scheduler) (v : IsValid s) (k : ℕ) (inside : k < thread_max)
    (r : is_ready (thread_at s.threads k).state ≡ true) where
  leave-Closer :
      (st : RunState) (next : ℕ)
      → next < thread_max
      → distance next k < distance s.current_slot k
      → Closer k s (switch_to next (record s { threads = set_state s.current_slot st s.threads }))
  unfolding Closer set_state
  leave-Closer st next h d =
      let left : Thread = record (thread_at s.threads s.current_slot) { state = st } in
      let mid : Scheduler = record s { threads = set s.threads s.current_slot left } in
      let len : length mid.threads ≡ thread_max =
        length-set s.threads s.current_slot left ∙ v.slots in
      let at : (switch_to next mid).current_slot ≡ next = switch_to_slot mid next in
      elim (ℕ_discrete next k) [
        | yes e ↦ inl (at ∙ e)
        | no ne ↦ inr (
          ground (
            arith,
            switch_to-states mid next k (omega (arith, len, h)),
            marked s v st k,
            ready_elsewhere s k v r,
            r,
            ne,
          ),
          rw at d,
        )
      ]

  pub switch-Closer : Closer k s (switch_to_next s)
  unfolding switch_to_next
  switch-Closer =
      let next = next_ready_slot s.capacity s.threads s.current_slot in
      let (other, near) = next_closer s s.threads k v inside (ready_elsewhere s k v r) r in
      if_rule (Closer k s) (next == s.current_slot) {x = s}
        (λ same. absurd (other (ground (arith, same))))
        λ _. rw (put_back_marks s v) (leave-Closer ready next (next_inside s s.threads v) near)

  pub exit-Closer : (t : Scheduler) → thread_exit s ≡ some t → Closer k s t
  unfolding thread_exit
  exit-Closer t e =
      let threads = set_state s.current_slot exited s.threads in
      let next = next_ready_slot s.capacity threads s.current_slot in
      let kept : is_ready (thread_at threads k).state ≡ true =
        ground (arith, marked s v exited k, ready_elsewhere s k v r, r) in
      let (other, near) = next_closer s threads k v inside (ready_elsewhere s k v r) kept in
      let same : switch_to next (record s { threads = threads }) ≡ t = ground (arith, e) in
      rw (← same) (leave-Closer exited next (next_inside s threads v) near)

-- What a call that creates a thread leaves alone.
abbrev pub Waits : ℕ → Scheduler → Scheduler → Type 0
Waits k s t = (t.current_slot ≡ s.current_slot) × (is_ready (thread_at t.threads k).state ≡ true)

module _ (s : Scheduler) (v : IsValid s) (k : ℕ)
    (r : is_ready (thread_at s.threads k).state ≡ true) where
  admit-Waits :
      (slot entry context : ℕ)
      → slot < thread_max
      → is_unused (thread_at s.threads slot).state ≡ true
      → Waits k s (admit slot entry context s)
  unfolding admit recount
  admit-Waits slot entry context l u = (
    refl,
    ground (
      arith,
      thread_at-set s.threads slot k (new_thread slot entry context s) (omega (arith, v.slots, l)),
      r,
      u,
    ),
  )

  settle_create-Waits :
      {W : Type 0} (slot entry context : ℕ) (p : Status × W)
      → Waits k s (admit slot entry context s)
      → Waits k s (settle_create slot entry context s p).2
  unfolding settle_create
  settle_create-Waits slot entry context (ok, w) a = a
  settle_create-Waits slot entry context (st, w) a = (refl, r)

  pub thread_create-Waits :
      {W : Type 0} (m : Memory W) (given on : Bool) (entry context : ℕ) (w : W)
      → Waits k s (thread_create m given on entry context s w).2
  unfolding thread_create
  thread_create-Waits {W} m given on entry context w =
      let P : Status × Option ℕ × Scheduler × W → Type 0 = λ p. Waits k s p.2 in
      if_rule P (not given) {x = (null_argument, none, s, w)} (λ _. (refl, r))
        λ _.
          if_rule P (not s.active) {x = (not_started, some id_none, s, w)} (λ _. (refl, r))
            λ _.
              if_rule P on {x = (interrupts_enabled, some id_none, s, w)} (λ _. (refl, r))
                λ _. elim (Option-cases (find_unused (s.capacity - 1) 1 s.threads)) [
                  | inl nothing ↦ rw nothing (refl, r)
                  | inr (slot, found) ↦
                      let (low, high, free) =
                        find_unused_sound (s.capacity - 1) 1 s.threads found in
                      rw found (
                        settle_create-Waits slot entry context (map_stack m slot w)
                          (admit-Waits slot entry context (omega (arith, v.full, high)) free))
                ]
