-- ===== src/Timer/Expiry.antt =====
-- The expiry pass of src/kernel/timer.c: that it ends, what it fires and what it leaves.
use pyrenis.Base.{
  ℕ, zero, suc, ◌-◌, ◌≤◌, ◌<◌, ◌≡◌, refl, ◌⊎◌, inl, inr, Bool, true, false, not, ◌&&◌, ◌||◌, Option,
  none, some, List, [], ◌∷◌, arith, ltb, leb, ◌==◌, if_rule, Option-cases, length, set,
}
use pyrenis.Timer.Table.{Entry, vacant, entry_at, slot_of, free_slot, is_due, choose_due}
use pyrenis.Timer.Due.{
  due_count, due_from, due_count-set, due_from-set, due_from-zero, none_due, choose_due-none,
  choose_due_first, due_from-at,
}
use pyrenis.Timer.Calls.{
  Outside, TimerState, Status, ok, no_capacity, unknown_timer, reprogram, enter, settle_arm,
  timer_arm, timer_cancel, Request, arming, cancelling, serve, serve_all, Behaviour, fire,
  expire_reached, list_count, minimum_interval_ns,
}

pub reprogram-entries : (o : Outside) (s : TimerState) → (reprogram o s).1.entries ≡ s.entries
unfolding reprogram
reprogram-entries o s = ground arith

-- The deadlines fired never go back, start at `m` or later and are all reached.
unfoldable pub ascends : ℕ → ℕ → List Entry → Bool
ascends now m [] = true
ascends now m (e ∷ es) =
    leb m e.deadline_ns && leb e.deadline_ns now && ascends now e.deadline_ns es

-- The clock does not read less in a call than at the start of the pass.
unfoldable pub is_later : ℕ → Request → Bool
is_later now (arming deadline callback context o) = leb now o.now
is_later now (cancelling identifier o) = true

unfoldable pub all_later : ℕ → List Request → Bool
all_later now [] = true
all_later now (r ∷ rs) = is_later now r && all_later now rs

module _ (now : ℕ) where
  -- A table with no more due than another, and none of them earlier.
  Calmer : List Entry → List Entry → Type 0
  Calmer es fs =
      (due_count now fs ≤ due_count now es)
      × ((m : ℕ) → due_from now m es ≡ true → due_from now m fs ≡ true)

  Calmer-refl : (es : List Entry) → Calmer es es
  unfolding Calmer
  Calmer-refl es = (omega arith, λ m d. d)

  Calmer-trans : (es fs gs : List Entry) → Calmer es fs → Calmer fs gs → Calmer es gs
  unfolding Calmer
  Calmer-trans es fs gs (l, d) (l', d') = (omega (arith, l, l'), λ m h. d' m (d m h))

  set-Calmer : (es : List Entry) (k : ℕ) (e : Entry) → is_due now e ≡ false → Calmer es (set es k e)
  unfolding Calmer
  set-Calmer es k e h =
      (ground (arith, due_count-set now es k e h), λ m d. due_from-set now m es k e h d)

  set_twice-Calmer :
      (es : List Entry) (k j : ℕ) (e f : Entry)
      → is_due now e ≡ false
      → is_due now f ≡ false
      → Calmer es (set (set es k e) j f)
  set_twice-Calmer es k j e f he hf =
      Calmer-trans es (set es k e) (set (set es k e) j f) (set-Calmer es k e he)
        (set-Calmer (set es k e) j f hf)

  timer_cancel-Calmer :
      (identifier : ℕ) (o : Outside) (s : TimerState)
      → Calmer s.entries (timer_cancel identifier o s).1.entries
  unfolding timer_cancel
  timer_cancel-Calmer identifier o s =
      if_rule (λ (r : Status × TimerState). Calmer s.entries r.1.entries) (not s.started)
        (λ _. Calmer-refl s.entries) λ _. cancelled (slot_of identifier s.entries)
    where
      cancelled :
          (found : Option ℕ)
          → Calmer s.entries
              (elim found as (λ x. Status × TimerState) [
                | none ↦ (unknown_timer, s)
                | some slot ↦ reprogram o (record s { entries = set s.entries slot vacant })
              ]).1.entries
      cancelled none = Calmer-refl s.entries
      cancelled (some slot) =
          rw (reprogram-entries o (record s { entries = set s.entries slot vacant }))
            (set-Calmer s.entries slot vacant refl)

  settle-Calmer :
      (es : List Entry) (slot identifier : ℕ) (r : Status × TimerState)
      → Calmer es r.1.entries
      → Calmer es (settle_arm slot identifier r).2.entries
  unfolding settle_arm
  settle-Calmer es slot identifier (st, s) c = elim (kept_or_undone st) [
    | inl kept ↦ rw kept c
    | inr undone ↦ rw undone (
        Calmer-trans es s.entries (set s.entries slot vacant) c
          (set-Calmer s.entries slot vacant refl))
  ]
    where
      kept_or_undone :
          (st : Status)
          → ((settle_arm slot identifier (st, s)).2.entries ≡ s.entries)
            ⊎ ((settle_arm slot identifier (st, s)).2.entries ≡ set s.entries slot vacant)
      kept_or_undone ok = inl refl
      kept_or_undone _ = inr refl

  timer_arm-Calmer :
      (given : Bool) (deadline callback context : ℕ) (o : Outside) (s : TimerState)
      → now ≤ o.now
      → Calmer s.entries (timer_arm given deadline callback context o s).2.entries
  unfolding timer_arm settle_arm enter
  timer_arm-Calmer given deadline callback context o s l =
      if_rule P (not given) (λ _. same)
        λ _.
          if_rule P (not s.started) (λ _. same)
            λ _.
              if_rule P (ltb deadline o.now || ltb (deadline - o.now) minimum_interval_ns)
                (λ _. same) λ far. taken far (free_slot s.entries)
    where
      P : Status × Option ℕ × TimerState → Type 0
      P r = Calmer s.entries r.2.entries

      same : Calmer s.entries s.entries
      same = Calmer-refl s.entries

      taken :
          (ltb deadline o.now || ltb (deadline - o.now) minimum_interval_ns) ≡ false
          → (found : Option ℕ)
          → Calmer s.entries
              (elim found as (λ x. Status × Option ℕ × TimerState) [
                | none ↦ (no_capacity, some 0, s)
                | some slot ↦
                    settle_arm slot s.next_identifier
                      (reprogram o (enter slot deadline callback context s))
              ]).2.entries
      taken far none = same
      taken far (some slot) =
          settle-Calmer s.entries slot s.next_identifier
            (reprogram o (enter slot deadline callback context s))
            (rw (reprogram-entries o (enter slot deadline callback context s))
              (set-Calmer s.entries slot _ (ground (arith, far, l))))

  serve-Calmer :
      (r : Request) (s : TimerState) → is_later now r ≡ true → Calmer s.entries (serve r s).entries
  unfolding serve is_later
  serve-Calmer (arming deadline callback context o) s l =
      timer_arm-Calmer (not (callback == 0)) deadline callback context o s (ground (arith, l))
  serve-Calmer (cancelling identifier o) s l = timer_cancel-Calmer identifier o s

  serve_all-Calmer :
      (rs : List Request) (s : TimerState)
      → all_later now rs ≡ true
      → Calmer s.entries (serve_all rs s).entries
  unfolding serve_all all_later
  serve_all-Calmer [] s l = Calmer-refl s.entries
  serve_all-Calmer (r ∷ rs) s l =
      Calmer-trans s.entries (serve r s).entries (serve_all rs (serve r s)).entries
        (serve-Calmer r s (ground (arith, l))) (serve_all-Calmer rs (serve r s) (ground (arith, l)))

  module _ (act : Behaviour)
      (later : (e : Entry) (s : TimerState) → all_later now (act e s) ≡ true) where
    -- A round leaves fewer due, and none earlier than before.
    fire-Calmer :
        (s : TimerState) (slot : ℕ)
        → is_due now (entry_at s.entries slot) ≡ true
        → (due_count now (fire act slot s).entries < due_count now s.entries)
          × ((m : ℕ)
              → due_from now m s.entries ≡ true
              → due_from now m (fire act slot s).entries ≡ true)
    unfolding fire Calmer
    fire-Calmer s slot due =
        let e = entry_at s.entries slot in
        let t : TimerState = record s { entries = set s.entries slot vacant } in
        let (fewer, from) : Calmer t.entries (fire act slot s).entries =
          if_rule (λ (u : TimerState). Calmer t.entries u.entries) (e.callback == 0)
            (λ _. Calmer-refl t.entries) λ _. serve_all-Calmer (act e t) t (later e t) in
        (
          ground (arith, fewer, due, due_count-set now s.entries slot vacant refl),
          λ m d. from m (due_from-set now m s.entries slot vacant refl d),
        )

    passes :
        (fuel m : ℕ) (s : TimerState)
        → due_count now s.entries < fuel
        → due_from now m s.entries ≡ true
        → (fired : List Entry) × (t : TimerState) × (expire_reached fuel act now s
            ≡ some (fired, t))
          × (due_count now t.entries ≡ 0)
          × (ascends now m fired ≡ true)
          × (list_count fired ≤ due_count now s.entries)
    unfolding expire_reached ascends list_count
    passes zero m s l d = absurd (omega arith)
    passes (suc fuel) m s l d = elim (Option-cases (choose_due now 0 none s.entries)) [
      | inl e ↦ ([], s, ground (arith, e), choose_due-none now s.entries 0 e, refl, omega arith)
      | inr ((slot, deadline), e) ↦
          let (due, at, from) = choose_due_first now s.entries slot deadline e in
          let start = due_from-at now s.entries m slot d due in
          let (fewer, keeps) = fire-Calmer s slot due in
          let (fired, t, runs, none_left, up, few) =
            passes fuel deadline (fire act slot s) (omega (arith, l, fewer))
              (keeps deadline from) in
          (
            entry_at s.entries slot ∷ fired,
            t,
            ground (arith, e, runs),
            none_left,
            ground (arith, due, at, up, start),
            omega (arith, few, fewer),
          )
    ]

  due_count_le : (es : List Entry) → due_count now es ≤ length es
  unfolding due_count
  due_count_le [] = omega arith
  due_count_le (e ∷ es) = ground (arith, due_count_le es)

  -- Take callbacks in whose calls the clock reads no less than the instant of the pass, and more
  -- fuel than the table has entries. Then expire_reached ends: no entry is left that the instant
  -- has reached, the deadlines that fired never go back and are all reached, and no more fired
  -- than were due at the start.
  pub expire_reached-in_order :
      (act : Behaviour) (s : TimerState) (fuel : ℕ)
      → ((e : Entry) (u : TimerState) → all_later now (act e u) ≡ true)
      → length s.entries < fuel
      → (fired : List Entry) × (t : TimerState) × (expire_reached fuel act now s ≡ some (fired, t))
        × ((slot : ℕ) → is_due now (entry_at t.entries slot) ≡ false)
        × (ascends now 0 fired ≡ true)
        × (list_count fired ≤ due_count now s.entries)
  expire_reached-in_order act s fuel later l =
      let (fired, t, runs, none_left, up, few) =
        passes act later fuel 0 s (omega (arith, l, due_count_le s.entries))
          (due_from-zero now s.entries) in
      (fired, t, runs, λ slot. none_due now t.entries slot none_left, up, few)
