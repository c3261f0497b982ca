-- ===== src/Timer/Due.antt =====
-- What the scan of expire_reached finds in the table of src/kernel/timer.c, and how a write to an
-- entry changes what is due.
use pyrenis.Base.{
  ℕ, zero, suc, ◌+◌, ◌-◌, ◌≤◌, ◌≡◌, refl, sym, ◌⊎◌, inl, inr, Bool, true, false, ◌&&◌, none, some,
  List, [], ◌∷◌, arith, ltb, leb, if◌then◌else◌, Bool-cases, set,
}
use pyrenis.Timer.Table.{Entry, entry_at, is_due, better, choose_due}

-- How many entries the instant has reached.
unfoldable pub due_count : ℕ → List Entry → ℕ
due_count now [] = 0
due_count now (e ∷ es) = (if is_due now e then 1 else 0) + due_count now es

-- Whether every entry that the instant has reached has a deadline of at least `m`.
unfoldable pub due_from : ℕ → ℕ → List Entry → Bool
due_from now m [] = true
due_from now m (e ∷ es) = (if is_due now e then leb m e.deadline_ns else true) && due_from now m es

module _ (now : ℕ) where
  pub due_count-set :
      (es : List Entry) (k : ℕ) (e : Entry)
      → is_due now e ≡ false
      → due_count now (set es k e) + (if is_due now (entry_at es k) then 1 else 0)
        ≡ due_count now es
  unfolding due_count
  due_count-set [] k e h = ground arith
  due_count-set (x ∷ es) zero e h = ground (arith, h)
  due_count-set (x ∷ es) (suc k) e h = ground (arith, due_count-set es k e h)

  pub due_from-set :
      (m : ℕ) (es : List Entry) (k : ℕ) (e : Entry)
      → is_due now e ≡ false
      → due_from now m es ≡ true
      → due_from now m (set es k e) ≡ true
  unfolding due_from
  due_from-set m [] k e h d = refl
  due_from-set m (x ∷ es) zero e h d = ground (arith, h, d)
  due_from-set m (x ∷ es) (suc k) e h d = ground (arith, d, due_from-set m es k e h)

  pub due_from-zero : (es : List Entry) → due_from now 0 es ≡ true
  unfolding due_from
  due_from-zero [] = refl
  due_from-zero (x ∷ es) = ground (arith, due_from-zero es)

  pub none_due :
      (es : List Entry) (k : ℕ) → due_count now es ≡ 0 → is_due now (entry_at es k) ≡ false
  unfolding due_count
  none_due [] k h = refl
  none_due (x ∷ es) zero h = ground (arith, h)
  none_due (x ∷ es) (suc k) h = none_due es k (ground (arith, h))

  due_from-le :
      (es : List Entry) (m n : ℕ) → n ≤ m → due_from now m es ≡ true → due_from now n es ≡ true
  unfolding due_from
  due_from-le [] m n l d = refl
  due_from-le (x ∷ es) m n l d = ground (arith, l, d, due_from-le es m n l)

  -- What a scan from `slot` on may answer.
  abbrev Answers : List Entry → ℕ → ℕ × ℕ → Type 0
  Answers es slot (i, d) =
      (slot ≤ i)
      × (is_due now (entry_at es (i - slot)) ≡ true)
      × ((entry_at es (i - slot)).deadline_ns ≡ d)

  shift :
      (x : Entry) (es : List Entry) (slot : ℕ) (c : ℕ × ℕ)
      → Answers es (suc slot) c
      → Answers (x ∷ es) slot c
  shift x es slot (i, d) (l, due, at) =
      let step : i - slot ≡ suc (i - suc slot) = omega (arith, l) in
      (omega (arith, l), rw step due, rw step at)

  -- A scan that goes on from an entry that it chose.
  here :
      (x : Entry) (es : List Entry) (slot i d : ℕ)
      → is_due now x ≡ true
      → ((i ≡ slot) × (d ≡ x.deadline_ns)) ⊎ Answers es (suc slot) (i, d)
      → Answers (x ∷ es) slot (i, d)
  here x es slot i d t (inl (at_slot, at_d)) =
      let step : i - slot ≡ 0 = omega (arith, at_slot) in
      (omega (arith, at_slot), rw step t, rw step (sym at_d))
  here x es slot i d t (inr a) = shift x es slot (i, d) a

  there :
      (x : Entry) (es : List Entry) (slot best m i d : ℕ)
      → ((i ≡ best) × (d ≡ m)) ⊎ Answers es (suc slot) (i, d)
      → ((i ≡ best) × (d ≡ m)) ⊎ Answers (x ∷ es) slot (i, d)
  there x es slot best m i d (inl same) = inl same
  there x es slot best m i d (inr a) = inr (shift x es slot (i, d) a)

  -- The scan with a slot already chosen: the answer is that or a better one.
  keeps_best :
      (es : List Entry) (slot best m : ℕ)
      → (i : ℕ) × (d : ℕ) × (choose_due now slot (some (best, m)) es ≡ some (i, d))
        × (d ≤ m)
        × (due_from now d es ≡ true)
        × (((i ≡ best) × (d ≡ m)) ⊎ Answers es slot (i, d))
  unfolding choose_due better due_from
  keeps_best [] slot best m = (best, m, refl, omega arith, refl, inl (refl, refl))
  keeps_best (x ∷ es) slot best m = elim (Bool-cases (is_due now x && ltb x.deadline_ns m)) [
    | inl t ↦
        let (i, d, e, l, all, from) = keeps_best es (suc slot) slot x.deadline_ns in
        (
          i,
          d,
          ground (arith, t, e),
          ground (arith, t, l),
          ground (arith, l, all),
          inr (here x es slot i d (ground (arith, t)) from),
        )
    | inr f ↦
        let (i, d, e, l, all, from) = keeps_best es (suc slot) best m in
        (i, d, ground (arith, f, e), l, ground (arith, f, l, all), there x es slot best m i d from)
  ]

  -- The scan of expire_reached answers a due entry of the lowest deadline, or there is none due.
  pub choose_due-none :
      (es : List Entry) (slot : ℕ) → choose_due now slot none es ≡ none → due_count now es ≡ 0
  unfolding choose_due better due_count
  choose_due-none [] slot e = refl
  choose_due-none (x ∷ es) slot e = elim (Bool-cases (is_due now x)) [
    | inl t ↦
        let (i, d, found, l, all, from) = keeps_best es (suc slot) slot x.deadline_ns in
        absurd (ground (arith, t, found, e))
    | inr f ↦ ground (arith, f, e, choose_due-none es (suc slot))
  ]

  choose_due-some :
      (es : List Entry) (slot i d : ℕ)
      → choose_due now slot none es ≡ some (i, d)
      → Answers es slot (i, d) × (due_from now d es ≡ true)
  unfolding choose_due better due_from
  choose_due-some [] slot i d e = absurd (ground (arith, e))
  choose_due-some (x ∷ es) slot i d e = elim (Bool-cases (is_due now x)) [
    | inl t ↦
        let (j, n, found, l, all, from) = keeps_best es (suc slot) slot x.deadline_ns in
        let same : j ≡ i = ground (arith, t, found, e) in
        let same_d : n ≡ d = ground (arith, t, found, e) in
        rw (← same) (rw (← same_d) (here x es slot j n t from, ground (arith, l, all)))
    | inr f ↦
        let (a, all) = choose_due-some es (suc slot) i d (ground (arith, f, e)) in
        (shift x es slot (i, d) a, ground (arith, f, all))
  ]

  pub choose_due_first :
      (es : List Entry) (i d : ℕ)
      → choose_due now 0 none es ≡ some (i, d)
      → (is_due now (entry_at es i) ≡ true)
        × ((entry_at es i).deadline_ns ≡ d)
        × (due_from now d es ≡ true)
  choose_due_first es i d e =
      let ((l, due, at), from) = choose_due-some es 0 i d e in
      let whole : i - 0 ≡ i = omega arith in (rw (← whole) due, rw (← whole) at, from)

  -- A bound on what is due is one on each.
  pub due_from-at :
      (es : List Entry) (m i : ℕ)
      → due_from now m es ≡ true
      → is_due now (entry_at es i) ≡ true
      → m ≤ (entry_at es i).deadline_ns
  unfolding due_from
  due_from-at [] m i h due = absurd (ground (arith, due))
  due_from-at (x ∷ es) m zero h due = ground (arith, h, due)
  due_from-at (x ∷ es) m (suc i) h due = due_from-at es m i (ground (arith, h)) due
