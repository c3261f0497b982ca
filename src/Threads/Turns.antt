-- ===== src/Threads/Turns.antt =====
-- Sequences of calls on a started scheduler of src/kernel/thread.c, in any order and with any
-- answers from outside: what they keep, and that no ready thread is starved.
use pyrenis.Base.{
  ℕ, ◌+◌, ◌-◌, ◌≤◌, ◌<◌, ◌≡◌, refl, ◌⊎◌, inl, inr, Bool, true, false, Option, none, some, List, [],
  ◌∷◌, arith, ◌==◌, if◌then◌else◌, Bool-cases, Option-cases,
}
use pyrenis.Pages.{Memory}
use pyrenis.Threads.State.{Scheduler, thread_at, is_ready, thread_max}
use pyrenis.Threads.Schedule.{
  thread_yield, thread_on_interrupt_return, quantum_expired, thread_exit, thread_enable_preemption,
  thread_disable_preemption, owe_switch, settle_preemption, arm_quantum, switch_to_next,
}
use pyrenis.Threads.Life.{thread_create}
use pyrenis.Threads.Invariant.{IsValid}
use pyrenis.Threads.Keeps.{
  thread_yield-IsValid, return-IsValid, quantum_expired-IsValid, thread_exit-IsValid, aside,
  enable-IsValid, disable-IsValid, thread_create-IsValid,
}
use pyrenis.Threads.Rotation.{
  distance, Closer, ready_elsewhere, switch-Closer, exit-Closer, Waits, thread_create-Waits,
}

-- A call with what it is given and what it is answered.
pub data Call : Type 0 where
  yielding returning exiting disabling : Call
  quantum : (armed : Option ℕ) → Call
  enabling : (timer_started : Bool) (armed : Option ℕ) → Call
  creating : (given interrupts_on : Bool) (entry context : ℕ) → Call

module _ {W : Type 0} (m : Memory W) where
  -- `none` is a panic, after which nothing runs.
  unfoldable pub perform : Call → Scheduler × W → Option (Scheduler × W)
  perform yielding (s, w) = some (thread_yield s, w)
  perform returning (s, w) = some (thread_on_interrupt_return s, w)
  perform exiting (s, w) = elim (thread_exit s) [ none ↦ none | some t ↦ some (t, w) ]
  perform disabling (s, w) = some ((thread_disable_preemption s).1, w)
  perform (quantum armed) (s, w) = elim (quantum_expired armed s) [
    | none ↦ none
    | some t ↦ some (t, w)
  ]
  perform (enabling timer armed) (s, w) = some ((thread_enable_preemption timer armed s).1, w)
  perform (creating given on entry context) (s, w) =
      let (st, id, t, w') = thread_create m given on entry context s w in some (t, w')

  -- The calls in turn, up to a panic.
  unfoldable pub perform_all : List Call → Scheduler × W → Option (Scheduler × W)
  perform_all [] p = some p
  perform_all (c ∷ calls) p = elim (perform c p) [ none ↦ none | some q ↦ perform_all calls q ]

  perform-IsValid :
      (c : Call) (s t : Scheduler) (w w' : W)
      → IsValid s
      → perform c (s, w) ≡ some (t, w')
      → IsValid t
  unfolding perform
  perform-IsValid yielding s t w w' v e =
      let same : thread_yield s ≡ t = ground (arith, e) in rw (← same) (thread_yield-IsValid s v)
  perform-IsValid returning s t w w' v e =
      let same : thread_on_interrupt_return s ≡ t = ground (arith, e) in
      rw (← same) (return-IsValid s v)
  perform-IsValid exiting s t w w' v e = thread_exit-IsValid s v t (ground (arith, e))
  perform-IsValid disabling s t w w' v e =
      let same : (thread_disable_preemption s).1 ≡ t = ground (arith, e) in
      rw (← same) (disable-IsValid s v)
  perform-IsValid (quantum armed) s t w w' v e =
      quantum_expired-IsValid armed s t v (ground (arith, e))
  perform-IsValid (enabling timer armed) s t w w' v e =
      let same : (thread_enable_preemption timer armed s).1 ≡ t = ground (arith, e) in
      rw (← same) (enable-IsValid timer armed s v)
  perform-IsValid (creating given on entry context) s t w w' v e =
      let same : (thread_create m given on entry context s w).2 ≡ t = ground (arith, e) in
      rw (← same) (thread_create-IsValid m given on entry context s w v)

  -- From a valid scheduler and with any answers from outside, any sequence of calls of
  -- thread_yield, thread_on_interrupt_return, thread_exit, the quantum's callback,
  -- thread_enable_preemption, thread_disable_preemption and thread_create in which nothing panics
  -- ends in a valid one.
  pub perform_all-IsValid :
      (calls : List Call) (s t : Scheduler) (w w' : W)
      → IsValid s
      → perform_all calls (s, w) ≡ some (t, w')
      → IsValid t
  unfolding perform_all
  perform_all-IsValid [] s t w w' v e = let same : s ≡ t = ground (arith, e) in rw (← same) v
  perform_all-IsValid (c ∷ calls) s t w w' v e = elim (Option-cases (perform c (s, w))) [
    | inl panics ↦ absurd (ground (arith, panics, e))
    | inr ((s1, w1), goes) ↦
        perform_all-IsValid calls s1 t w1 w' (perform-IsValid c s s1 w w1 v goes)
          (ground (arith, goes, e))
  ]

-- Whether the call is one that gives the turn away.
abbrev pub gives_turn : Call → Scheduler → Bool
gives_turn yielding s = true
gives_turn exiting s = true
gives_turn returning s = s.reschedule_pending
gives_turn _ s = false

opened :
    (k : ℕ) (s t : Scheduler)
    → Closer k s t
    → (t.current_slot ≡ k)
      ⊎ ((is_ready (thread_at t.threads k).state ≡ true)
          × (distance t.current_slot k < distance s.current_slot k))
unfolding Closer
opened k s t c = c

module _ {W : Type 0} (m : Memory W) where
  -- How many turns are given away on the way.
  unfoldable pub turns : List Call → Scheduler × W → ℕ
  turns [] p = 0
  turns (c ∷ calls) p =
      (if gives_turn c p.0 then 1 else 0)
      + elim (perform m c p) [ none ↦ 0 | some q ↦ turns calls q ]

  -- Whether the slot runs at some point on the way.
  unfoldable pub runs : ℕ → List Call → Scheduler × W → Bool
  runs k [] p = p.0.current_slot == k
  runs k (c ∷ calls) p = elim (p.0.current_slot == k) [
    | true ↦ true
    | false ↦ elim (perform m c p) [ none ↦ false | some q ↦ runs k calls q ]
  ]

  runs_now :
      (k : ℕ) (calls : List Call) (p : Scheduler × W) → p.0.current_slot ≡ k → runs k calls p ≡ true
  unfolding runs
  runs_now k [] p e = ground (arith, e)
  runs_now k (c ∷ calls) p e = ground (arith, e)

  module _ (s : Scheduler) (v : IsValid s) (k : ℕ) (inside : k < thread_max)
      (r : is_ready (thread_at s.threads k).state ≡ true) (w : W) where
    turn-Closer :
        (c : Call) (t : Scheduler) (w' : W)
        → gives_turn c s ≡ true
        → perform m c (s, w) ≡ some (t, w')
        → Closer k s t
    unfolding perform thread_yield thread_on_interrupt_return Closer
    turn-Closer yielding t w' g e =
        let same : switch_to_next s ≡ t = ground (arith, e, v.started) in
        rw (← same) (switch-Closer s v k inside r)
    turn-Closer returning t w' g e =
        let cleared : Scheduler = record s { reschedule_pending = false } in
        let same : switch_to_next cleared ≡ t = ground (arith, e, g, v.started) in
        rw (← same) (
          switch-Closer cleared (aside s cleared v refl refl refl refl refl refl refl refl) k inside
            r)
    turn-Closer exiting t w' g e = exit-Closer s v k inside r t (ground (arith, e))
    turn-Closer disabling t w' g e = absurd (ground arith)
    turn-Closer (quantum armed) t w' g e = absurd (ground arith)
    turn-Closer (enabling timer armed) t w' g e = absurd (ground arith)
    turn-Closer (creating given on entry context) t w' g e = absurd (ground arith)

    -- Any other call leaves the current slot and the ready one as they are.
    other_call :
        (c : Call) (t : Scheduler) (w' : W)
        → gives_turn c s ≡ false
        → perform m c (s, w) ≡ some (t, w')
        → Waits k s t
    unfolding perform thread_on_interrupt_return quantum_expired owe_switch thread_enable_preemption
        settle_preemption arm_quantum thread_disable_preemption
    other_call yielding t w' g e = absurd (ground arith)
    other_call exiting t w' g e = absurd (ground arith)
    other_call returning t w' g e = ground (arith, r)
    other_call disabling t w' g e = ground (arith, r)
    other_call (quantum armed) t w' g e = ground (arith, r)
    other_call (enabling timer none) t w' g e = ground (arith, r)
    other_call (enabling timer (some i)) t w' g e = ground (arith, r)
    other_call (creating given on entry context) t w' g e =
        let same : (thread_create m given on entry context s w).2 ≡ t = ground (arith, e) in
        rw (← same) (thread_create-Waits s v k r m given on entry context w)

  nearer :
      (calls : List Call) (s t : Scheduler) (w w' : W) (k : ℕ)
      → IsValid s
      → k < thread_max
      → is_ready (thread_at s.threads k).state ≡ true
      → perform_all m calls (s, w) ≡ some (t, w')
      → distance s.current_slot k ≤ turns calls (s, w)
      → runs k calls (s, w) ≡ true
  unfolding runs turns perform_all
  nearer [] s t w w' k v l r e d = absurd (omega (arith, v.inside, l, ready_elsewhere s k v r))
  nearer (c ∷ calls) s t w w' k v l r e d = elim (Option-cases (perform m c (s, w))) [
    | inl panics ↦ absurd (ground (arith, panics, e))
    | inr ((s1, w1), goes) ↦
        let v1 : IsValid s1 = perform-IsValid m c s s1 w w1 v goes in
        let rest : perform_all m calls (s1, w1) ≡ some (t, w') = ground (arith, goes, e) in
        let later : runs k calls (s1, w1) ≡ true → runs k (c ∷ calls) (s, w) ≡ true =
          λ h. ground (arith, goes, h) in
        elim (Bool-cases (gives_turn c s)) [
          | inl g ↦ elim (opened k s s1 (turn-Closer s v k l r w c s1 w1 g goes)) [
            | inl now ↦ later (runs_now k calls (s1, w1) now)
            | inr (still, near) ↦
                later (nearer calls s1 t w1 w' k v1 l still rest (ground (arith, d, g, goes, near)))
          ]
          | inr g ↦
              let (same, still) = other_call s v k l r w c s1 w1 g goes in
              later (nearer calls s1 t w1 w' k v1 l still rest (ground (arith, d, g, goes, same)))
        ]
  ]

  -- On a valid scheduler, take a slot of the table whose thread is ready, and any sequence of
  -- calls in which nothing panics and at least seven turns are given away. Then that slot is the
  -- current one at some point on the way.
  pub no_starvation :
      (calls : List Call) (s t : Scheduler) (w w' : W) (k : ℕ)
      → IsValid s
      → k < thread_max
      → is_ready (thread_at s.threads k).state ≡ true
      → perform_all m calls (s, w) ≡ some (t, w')
      → thread_max - 1 ≤ turns calls (s, w)
      → runs k calls (s, w) ≡ true
  no_starvation calls s t w w' k v l r e d = nearer calls s t w w' k v l r e (omega (arith, d))
