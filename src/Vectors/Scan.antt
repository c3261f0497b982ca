-- ===== src/Vectors/Scan.antt =====
-- The scan of interrupt_vector_allocate in src/kernel/interrupt_vector.c: what it grants, and when.
use native.Mathlib.Decide.{ℕ_discrete}
use pyrenis.Base.{
  ℕ, zero, suc, ◌+◌, ◌≤◌, ◌<◌, ◌≡◌, refl, inl, inr, Bool, true, false, none, some, arith, List,
  Option-cases, get_or,
}
use pyrenis.Base.Count.{count_below, count_below-le}
use pyrenis.Vectors.Table.{
  Handle, VectorState, vector_count, dynamic_base, cleared, is_dynamic, vector_index,
  next_generation, take_vector, allocate_specific, find_vector, allocate, ok, exhausted,
}
use pyrenis.Vectors.Counts.{taken, IsValid}

-- Whether every vector from `first` to below `past` is in use.
abbrev pub AllTaken : List Bool → ℕ → ℕ → Type 0
AllTaken m first past = (v : ℕ) → first ≤ v → v < past → get_or m (vector_index v) false ≡ true

find_vector_complete :
    (rounds first : ℕ) (m : List Bool)
    → find_vector rounds first m ≡ none
    → AllTaken m first (first + rounds)
unfolding find_vector
find_vector_complete zero first m e v l h = absurd (omega arith)
find_vector_complete (suc rounds) first m e v l h = elim (ℕ_discrete first v) [
  | yes now ↦ rw (← now) (ground arith)
  | no later ↦
      find_vector_complete rounds (first + 1) m (ground arith) v (omega arith) (omega arith)
]

find_vector_sound :
    (rounds first : ℕ) (m : List Bool) {v : ℕ}
    → find_vector rounds first m ≡ some v
    → (first ≤ v) × (v < first + rounds) × (get_or m (vector_index v) false ≡ false)
unfolding find_vector
find_vector_sound zero first m e = absurd (ground arith)
find_vector_sound (suc rounds) first m {v} e =
    ground (arith, find_vector_sound rounds (first + 1) m {v = v})

find_vector_first :
    (rounds first : ℕ) (m : List Bool) {v : ℕ}
    → find_vector rounds first m ≡ some v
    → AllTaken m first v
unfolding find_vector
find_vector_first zero first m {v} e w l h = absurd (ground arith)
find_vector_first (suc rounds) first m {v} e w l h = elim (ℕ_discrete first w) [
  | yes now ↦ rw (← now) (ground (arith, now))
  | no later ↦
      find_vector_first rounds (first + 1) m {v = v} (ground arith) w (omega arith) (omega arith)
]

all_count : (n : ℕ) (p : ℕ → Bool) → ((i : ℕ) → i < n → p i ≡ true) → count_below n p ≡ n
unfolding count_below
all_count zero p h = refl
all_count (suc n) p h = ground (arith, all_count n p (λ i l. h i (omega arith)), h n (omega arith))

grant :
    (vector : ℕ) (h : Handle) (s : VectorState)
    → s.active ≡ true
    → is_dynamic vector ≡ true
    → taken s (vector_index vector) ≡ false
    → allocate_specific true false vector h s ≡ (
      ok,
      record {
        vector = vector;
        generation = next_generation (get_or s.generations (vector_index vector) 0);
        active = true;
      },
      take_vector (vector_index vector) s,
    )
unfolding allocate_specific
grant vector h s a d f = ground arith

-- The handle for a vector at its next generation.
abbrev pub handle_for : ℕ → VectorState → Handle
handle_for vector s = record {
  vector = vector;
  generation = next_generation (get_or s.generations (vector_index vector) 0);
  active = true;
}

in_range : (v : ℕ) → dynamic_base ≤ v → v < dynamic_base + vector_count → is_dynamic v ≡ true
unfolding is_dynamic
in_range v l h = ground arith

one_free : (p : ℕ → Bool) (n i : ℕ) → i < n → p i ≡ false → count_below n p < n
unfolding count_below
one_free p zero i l f = absurd (omega arith)
one_free p (suc n) i l f = elim (ℕ_discrete n i) [
  | yes e ↦ ground (arith, e, count_below-le p n)
  | no ne ↦ ground (arith, one_free p n i (omega arith) f)
]

-- For a valid and active table with interrupts disabled and a vector not in use,
-- interrupt_vector_allocate grants the lowest dynamic vector that is not in use, with the next
-- generation of it.
pub allocate_lowest :
    (h : Handle) (s : VectorState)
    → IsValid s
    → s.active ≡ true
    → count_below vector_count (taken s) < vector_count
    → (vector : ℕ) × (is_dynamic vector ≡ true)
      × (taken s (vector_index vector) ≡ false)
      × AllTaken s.in_use dynamic_base vector
      × (allocate true false h s ≡ (ok, handle_for vector s, take_vector (vector_index vector) s))
unfolding allocate
allocate_lowest h s valid running room =
    elim (Option-cases (find_vector vector_count dynamic_base s.in_use)) [
      | inl nothing ↦
          absurd (omega (arith, room, all_count vector_count (taken s) (λ i l. every i l nothing)))
      | inr (vector, found) ↦
          let (low, high, free) = find_vector_sound vector_count dynamic_base s.in_use found in
          let dynamic : is_dynamic vector ≡ true = in_range vector low high in
          (
            vector,
            dynamic,
            free,
            find_vector_first vector_count dynamic_base s.in_use found,
            ground (arith, running, found, grant vector h s running dynamic free),
          )
    ]
  where
    every :
        (i : ℕ)
        → i < vector_count
        → find_vector vector_count dynamic_base s.in_use ≡ none
        → taken s i ≡ true
    every i l e = rw (back i) at (
        find_vector_complete vector_count dynamic_base s.in_use e (dynamic_base + i) (omega arith)
          (omega arith))
      where
        back : (i : ℕ) → vector_index (dynamic_base + i) ≡ i
        back i = omega arith

-- For an active table with interrupts disabled in which every vector is in use,
-- interrupt_vector_allocate answers that the vectors are exhausted, clears the handle and changes
-- nothing else.
pub allocate_exhausted :
    (h : Handle) (s : VectorState)
    → s.active ≡ true
    → count_below vector_count (taken s) ≡ vector_count
    → allocate true false h s ≡ (exhausted, cleared, s)
unfolding allocate
allocate_exhausted h s running full =
    elim (Option-cases (find_vector vector_count dynamic_base s.in_use)) [
      | inl nothing ↦ ground (arith, running, nothing)
      | inr (vector, found) ↦
          let (low, high, free) = find_vector_sound vector_count dynamic_base s.in_use found in
          absurd (
            omega (
              arith,
              full,
              one_free (taken s) vector_count (vector_index vector) (omega arith) free,
            ))
    ]
