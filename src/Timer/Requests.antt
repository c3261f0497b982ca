-- ===== src/Timer/Requests.antt =====
-- Sequences of calls of src/kernel/timer.c keep the identifiers in order.
use native.Mathlib.Decide.{ℕ_discrete}
use pyrenis.Base.{
  ℕ, suc, ◌+◌, ◌-◌, ◌^◌, ◌≤◌, ◌<◌, ◌≡◌, refl, ◌⊎◌, inl, inr, Bool, true, not, ◌||◌, Option, none,
  some, List, [], ◌∷◌, arith, ltb, ◌==◌, if_rule, Option-cases, set, get_or-set_ne,
}
use pyrenis.Timer.Table.{vacant, entry_at, slot_of, free_slot}
use pyrenis.Timer.Calls.{
  Outside, TimerState, Status, ok, unknown_timer, reprogram, enter, settle_arm, timer_arm,
  timer_cancel, Request, arming, cancelling, serve, serve_all, minimum_interval_ns,
}
use pyrenis.Timer.Expiry.{reprogram-entries}
use pyrenis.Timer.Slots.{vacant_at}
use pyrenis.Timer.Identifiers.{IsValid, enter-IsValid}

-- Vacating a slot keeps the identifiers in order.
vacate-IsValid :
    (s t : TimerState) (slot : ℕ)
    → IsValid s
    → t.next_identifier ≡ s.next_identifier
    → t.entries ≡ set s.entries slot vacant
    → IsValid t
vacate-IsValid s t slot v next es = record {
  next_positive = ground (arith, v.next_positive, next);
  given_out = λ i u. let same = was i u in ground (arith, next, u, same, v.given_out i);
  distinct = λ i j u w e.
      let same_i = was i u in
      let same_j = was j w in ground (arith, u, w, e, same_i, same_j, v.distinct i j);
}
  where
    was :
        (i : ℕ) → (entry_at t.entries i).in_use ≡ true → entry_at t.entries i ≡ entry_at s.entries i
    was i u = elim (ℕ_discrete slot i) [
      | yes same ↦ absurd (ground (arith, same, u, es, vacant_at s.entries i))
      | no other ↦ rw es (get_or-set_ne s.entries slot i vacant vacant other)
    ]

reprogram-next :
    (o : Outside) (s : TimerState) → (reprogram o s).1.next_identifier ≡ s.next_identifier
unfolding reprogram
reprogram-next o s = ground arith

reprogram-IsValid : (o : Outside) (s : TimerState) → IsValid s → IsValid (reprogram o s).1
reprogram-IsValid o s v =
    let es = reprogram-entries o s in
    let next = reprogram-next o s in
    record {
      next_positive = rw next v.next_positive;
      given_out = rw es (rw next v.given_out);
      distinct = rw es v.distinct;
    }

-- Valid, with at most one identifier more given out.
Keeps : TimerState → TimerState → Type 0
Keeps s t = IsValid t × (t.next_identifier ≤ s.next_identifier + 1)

settle-Keeps :
    (s t : TimerState) (st : Status) (slot identifier : ℕ)
    → Keeps s t
    → Keeps s (settle_arm slot identifier (st, t)).2
unfolding Keeps settle_arm
settle-Keeps s t st slot identifier (v, l) = elim (kept_or_undone st) [
  | inl kept ↦ rw kept (v, l)
  | inr undone ↦ rw undone (vacate-IsValid t cleared slot v refl refl, l)
]
  where
    cleared : TimerState
    cleared = record t { entries = set t.entries slot vacant }

    kept_or_undone :
        (st : Status)
        → ((settle_arm slot identifier (st, t)).2 ≡ t)
          ⊎ ((settle_arm slot identifier (st, t)).2 ≡ cleared)
    kept_or_undone ok = inl refl
    kept_or_undone _ = inr refl

timer_cancel-Keeps :
    (identifier : ℕ) (o : Outside) (s : TimerState)
    → IsValid s
    → Keeps s (timer_cancel identifier o s).1
unfolding timer_cancel Keeps
timer_cancel-Keeps identifier o s v =
    if_rule (λ (r : Status × TimerState). Keeps s r.1) (not s.started) (λ _. same)
      λ _. cancelled (slot_of identifier s.entries)
  where
    same : Keeps s s
    same = (v, omega arith)

    cancelled :
        (found : Option ℕ)
        → Keeps s
            (elim found as (λ x. Status × TimerState) [
              | none ↦ (unknown_timer, s)
              | some slot ↦ reprogram o (record s { entries = set s.entries slot vacant })
            ]).1
    cancelled none = same
    cancelled (some slot) =
        let t : TimerState = record s { entries = set s.entries slot vacant } in
        (
          reprogram-IsValid o t (vacate-IsValid s t slot v refl refl),
          omega (arith, reprogram-next o t),
        )

timer_arm-Keeps :
    (given : Bool) (deadline callback context : ℕ) (o : Outside) (s : TimerState)
    → IsValid s
    → s.next_identifier + 1 < 2 ^ 64
    → Keeps s (timer_arm given deadline callback context o s).2
unfolding timer_arm Keeps enter
timer_arm-Keeps given deadline callback context o s v l =
    if_rule P (not given) (λ _. same)
      λ _.
        if_rule P (not s.started) (λ _. same)
          λ _.
            if_rule P (ltb deadline o.now || ltb (deadline - o.now) minimum_interval_ns) (λ _. same)
              λ _. elim (Option-cases (free_slot s.entries)) [
                | inl full ↦ rw full same
                | inr (slot, free) ↦ rw free (
                    let t : TimerState = enter slot deadline callback context s in
                    settle-Keeps s (reprogram o t).1 (reprogram o t).0 slot s.next_identifier (
                      reprogram-IsValid o t
                          (enter-IsValid s slot deadline callback context v free l),
                      omega (arith, l, reprogram-next o t),
                    ))
              ]
  where
    P : Status × Option ℕ × TimerState → Type 0
    P r = Keeps s r.2

    same : Keeps s s
    same = (v, omega arith)

unfoldable pub request_count : List Request → ℕ
request_count [] = 0
request_count (r ∷ rs) = suc (request_count rs)

serve-Keeps :
    (r : Request) (s : TimerState)
    → IsValid s
    → s.next_identifier + 1 < 2 ^ 64
    → Keeps s (serve r s)
unfolding serve
serve-Keeps (arming deadline callback context o) s v l =
    timer_arm-Keeps (not (callback == 0)) deadline callback context o s v l
serve-Keeps (cancelling identifier o) s v l = timer_cancel-Keeps identifier o s v

-- Any calls of timer_arm and timer_cancel, fewer than would wrap the identifiers, keep the pending
-- entries apart: each has an identifier that was given out, and no two the same.
pub serve_all-IsValid :
    (rs : List Request) (s : TimerState)
    → IsValid s
    → s.next_identifier + request_count rs < 2 ^ 64
    → IsValid (serve_all rs s)
unfolding serve_all request_count Keeps
serve_all-IsValid [] s v l = v
serve_all-IsValid (r ∷ rs) s v l =
    let (v1, next) = serve-Keeps r s v (omega (arith, l)) in
    serve_all-IsValid rs (serve r s) v1 (omega (arith, l, next))
