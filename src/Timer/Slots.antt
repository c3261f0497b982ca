-- ===== src/Timer/Slots.antt =====
-- What the scans for an index in the table of src/kernel/timer.c answer.
use native.Mathlib.Decide.{ℕ_discrete}
use pyrenis.Base.{
  ℕ, zero, suc, ◌-◌, ◌≤◌, ◌<◌, ◌≡◌, refl, inl, inr, Bool, true, ◌&&◌, some, List, [], ◌∷◌, arith,
  ◌==◌, if◌then◌else◌, Bool-cases, length, set, get_or-set_self, get_or-set_ne,
}
use pyrenis.Timer.Table.{Entry, vacant, entry_at, find_entry, slot_of}

-- What the loops that look for an index answer.
pub find_entry_sound :
    (test : Entry → Bool) (slot : ℕ) (es : List Entry) (i : ℕ)
    → find_entry test slot es ≡ some i
    → (slot ≤ i) × (i - slot < length es) × (test (entry_at es (i - slot)) ≡ true)
unfolding find_entry
find_entry_sound test slot [] i e = absurd (ground (arith, e))
find_entry_sound test slot (x ∷ es) i e = elim (Bool-cases (test x)) [
  | inl t ↦
      let same : slot ≡ i = ground (arith, t, e) in
      let at : i - slot ≡ 0 = omega (arith, same) in
      (omega (arith, same), rw at (omega arith), rw at t)
  | inr f ↦
      let (l, inside, t) = find_entry_sound test (suc slot) es i (ground (arith, f, e)) in
      let at : i - slot ≡ suc (i - suc slot) = omega (arith, l) in
      (omega (arith, l), rw at (omega (arith, inside)), rw at t)
]

pub find_entry_complete :
    (test : Entry → Bool) (slot : ℕ) (es : List Entry) (j : ℕ)
    → j < length es
    → test (entry_at es j) ≡ true
    → (i : ℕ) × (find_entry test slot es ≡ some i)
unfolding find_entry
find_entry_complete test slot [] j l t = absurd (omega (arith, l))
find_entry_complete test slot (x ∷ es) zero l t = (slot, ground (arith, t))
find_entry_complete test slot (x ∷ es) (suc j) l t =
    let (i, found) = find_entry_complete test (suc slot) es j (omega (arith, l)) t in
    elim (Bool-cases (test x)) [
      | inl here ↦ (slot, ground (arith, here))
      | inr there ↦ (i, ground (arith, there, found))
    ]

pub entry_at-set :
    (es : List Entry) (k i : ℕ) (e : Entry)
    → k < length es
    → entry_at (set es k e) i ≡ (if k == i then e else entry_at es i)
entry_at-set es k i e l = elim (ℕ_discrete k i) [
  | yes same ↦ ground (arith, same, get_or-set_self es i e vacant)
  | no other ↦ ground (arith, other, get_or-set_ne es k i e vacant other)
]

-- The slot of an identifier that one pending entry has.
pub slot_of_unique :
    (es : List Entry) (identifier k : ℕ)
    → 0 < identifier
    → k < length es
    → (entry_at es k).in_use ≡ true
    → (entry_at es k).identifier ≡ identifier
    → ((i : ℕ) → (entry_at es i).in_use ≡ true → (entry_at es i).identifier ≡ identifier → i ≡ k)
    → slot_of identifier es ≡ some k
unfolding slot_of
slot_of_unique es identifier k p l u same only =
    let test : Entry → Bool = λ e. e.in_use && e.identifier == identifier in
    let (i, found) = find_entry_complete test 0 es k l (ground (arith, u, same)) in
    let (lo, inside, passes) = find_entry_sound test 0 es i found in
    let whole : i - 0 ≡ i = omega arith in
    let passes : test (entry_at es i) ≡ true = rw (← whole) passes in
    let here : i ≡ k = only i (ground (arith, passes)) (ground (arith, passes)) in
    ground (arith, p, found, here)

pub vacant_at : (es : List Entry) (k : ℕ) → entry_at (set es k vacant) k ≡ vacant
vacant_at [] k = refl
vacant_at (x ∷ es) zero = refl
vacant_at (x ∷ es) (suc k) = vacant_at es k
