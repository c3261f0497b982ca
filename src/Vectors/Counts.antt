-- ===== src/Vectors/Counts.antt =====
-- The counts of the vector table, and the states that its operations reach.
use native.Mathlib.Decide.{ℕ_discrete}
use pyrenis.Base.{
  ℕ, zero, suc, ◌+◌, ◌-◌, ◌<◌, ◌≡◌, refl, ◌∙◌, sym, inl, inr, Bool, true, false, not, ◌||◌, arith,
  ◌==◌, if◌then◌else◌, if_rule, Option-cases, length, get_or, replicate, length-set,
  get_or-set_self, get_or-set_ne, get_or-replicate,
}
use pyrenis.Base.Count.{count_below, count_below-insert, count_below-le}
use pyrenis.Vectors.Table.{
  Status, Handle, VectorState, vector_count, dynamic_base, cleared, unset, is_dynamic, vector_index,
  initialize, take_vector, return_vector, allocate_specific, find_vector, allocate, release,
  not_initialized, interrupts_enabled, reserved, already_allocated, already_initialized,
  null_argument, double_release, stale_allocation,
}

abbrev pub taken : VectorState → ℕ → Bool
taken s i = get_or s.in_use i false

-- The arrays keep their length, and the counts are those of the array.
pub record IsValid (s : VectorState) : Type 0 where
  pub flags : length s.in_use ≡ vector_count
  pub counters : length s.generations ≡ vector_count
  pub used_count : s.allocated ≡ count_below vector_count (taken s)
  pub free_count :
      s.free ≡ (if s.active then vector_count - count_below vector_count (taken s) else 0)

none_taken : (n : ℕ) → count_below n (λ i. get_or (replicate vector_count false) i false) ≡ 0
unfolding count_below
none_taken zero = refl
none_taken (suc n) = rw (get_or-replicate vector_count n false) (omega (arith, none_taken n))

pub unset-IsValid : IsValid unset
unset-IsValid = record {
  flags = refl;
  counters = refl;
  used_count = sym (none_taken vector_count);
  free_count = refl;
}

abbrev LeavesValid : Status × VectorState → Type 0
LeavesValid r = IsValid r.1

pub initialize-IsValid :
    (ready on : Bool) (s : VectorState) → IsValid s → IsValid (initialize ready on s).1
unfolding initialize
initialize-IsValid ready on s v =
    if_rule LeavesValid s.active {x = (already_initialized, s)} (λ _. v)
      λ _.
        if_rule LeavesValid (not ready) {x = (not_initialized, s)} (λ _. v)
          λ _.
            if_rule LeavesValid on {x = (interrupts_enabled, s)} (λ _. v)
              λ _. record {
                flags = refl;
                counters = refl;
                used_count = sym (none_taken vector_count);
                free_count = rw (none_taken vector_count) refl;
              }

module _ (s : VectorState) (valid : IsValid s) (running : s.active ≡ true) (i : ℕ)
    (inside : i < vector_count) where
  pub taken-take : (j : ℕ) → taken (take_vector i s) j ≡ (if i == j then true else taken s j)
  unfolding take_vector
  taken-take j = elim (ℕ_discrete i j) [
    | yes e ↦ ground (arith, e, get_or-set_self s.in_use i true false (omega (arith, valid.flags)))
    | no ne ↦ ground (arith, ne, get_or-set_ne s.in_use i j true false ne)
  ]

  pub taken-return : (j : ℕ) → taken (return_vector i s) j ≡ (if i == j then false else taken s j)
  unfolding return_vector
  taken-return j = elim (ℕ_discrete i j) [
    | yes e ↦ ground (arith, e, get_or-set_self s.in_use i false false (omega (arith, valid.flags)))
    | no ne ↦ ground (arith, ne, get_or-set_ne s.in_use i j false false ne)
  ]

  pub count-take :
      taken s i ≡ false
      → count_below vector_count (taken (take_vector i s)) ≡ count_below vector_count (taken s) + 1
  count-take free =
      count_below-insert (taken s) (taken (take_vector i s)) vector_count i inside free
        (ground (arith, taken-take i)) (λ j l ne. ground (arith, taken-take j, ne))

  pub count-return :
      taken s i ≡ true
      → count_below vector_count (taken s)
        ≡ count_below vector_count (taken (return_vector i s)) + 1
  count-return used =
      count_below-insert (taken (return_vector i s)) (taken s) vector_count i inside
        (ground (arith, taken-return i)) used (λ j l ne. ground (arith, taken-return j, ne))

  pub take_vector-IsValid : taken s i ≡ false → IsValid (take_vector i s)
  unfolding take_vector
  take_vector-IsValid free = record {
    flags = length-set s.in_use i true ∙ valid.flags;
    counters = length-set s.generations i _ ∙ valid.counters;
    used_count =
        omega (arith, count-take free, valid.used_count, count_below-le (taken s) vector_count);
    free_count = ground (
      arith,
      count-take free,
      valid.free_count,
      running,
      count_below-le (taken (take_vector i s)) vector_count,
    );
  }

  pub return_vector-IsValid : taken s i ≡ true → IsValid (return_vector i s)
  unfolding return_vector
  return_vector-IsValid used = record {
    flags = length-set s.in_use i false ∙ valid.flags;
    counters = valid.counters;
    used_count =
        omega (arith, count-return used, valid.used_count, count_below-le (taken s) vector_count);
    free_count = ground (
      arith,
      count-return used,
      valid.free_count,
      running,
      count_below-le (taken s) vector_count,
    );
  }

abbrev GivesValid : Status × Handle × VectorState → Type 0
GivesValid r = IsValid r.2

pub dynamic_index : (vector : ℕ) → is_dynamic vector ≡ true → vector_index vector < vector_count
unfolding is_dynamic
dynamic_index vector h = ground arith

pub allocate_specific-IsValid :
    (given on : Bool) (vector : ℕ) (h : Handle) (s : VectorState)
    → IsValid s
    → IsValid (allocate_specific given on vector h s).2
unfolding allocate_specific
allocate_specific-IsValid given on vector h s v =
    if_rule GivesValid (not given) {x = (null_argument, h, s)} (λ _. v)
      λ _.
        if_rule GivesValid (not s.active) {x = (not_initialized, cleared, s)} (λ _. v)
          λ off.
            if_rule GivesValid on {x = (interrupts_enabled, cleared, s)} (λ _. v)
              λ _.
                if_rule GivesValid (not (is_dynamic vector)) {x = (reserved, cleared, s)} (λ _. v)
                  λ dynamic.
                    if_rule GivesValid (taken s (vector_index vector))
                      {x = (already_allocated, cleared, s)} (λ _. v)
                      λ free.
                        take_vector-IsValid s v (ground arith) (vector_index vector)
                          (dynamic_index vector (ground arith)) free

pub allocate-IsValid :
    (given on : Bool) (h : Handle) (s : VectorState) → IsValid s → IsValid (allocate given on h s).2
unfolding allocate
allocate-IsValid given on h s v =
    if_rule GivesValid (not given) {x = (null_argument, h, s)} (λ _. v)
      λ _.
        if_rule GivesValid (not s.active) {x = (not_initialized, record h { active = false }, s)}
          (λ _. v)
          λ _.
            if_rule GivesValid on {x = (interrupts_enabled, record h { active = false }, s)}
              (λ _. v)
              λ _. elim (Option-cases (find_vector vector_count dynamic_base s.in_use)) [
                | inl none_left ↦ rw none_left v
                | inr (vector, found) ↦ rw found (allocate_specific-IsValid given on vector h s v)
              ]

pub release-IsValid :
    (given on : Bool) (h : Handle) (s : VectorState) → IsValid s → IsValid (release given on h s).2
unfolding release
release-IsValid given on h s v =
    if_rule GivesValid (not given) {x = (null_argument, h, s)} (λ _. v)
      λ _.
        if_rule GivesValid (not s.active) {x = (not_initialized, h, s)} (λ _. v)
          λ off.
            if_rule GivesValid on {x = (interrupts_enabled, h, s)} (λ _. v)
              λ _.
                if_rule GivesValid (not (is_dynamic h.vector)) {x = (reserved, h, s)} (λ _. v)
                  λ dynamic.
                    if_rule GivesValid (not h.active || not (taken s (vector_index h.vector)))
                      {x = (double_release, h, s)} (λ _. v)
                      λ used.
                        if_rule GivesValid
                          (not (get_or s.generations (vector_index h.vector) 0 == h.generation))
                          {x = (stale_allocation, h, s)} (λ _. v)
                          λ _.
                            return_vector-IsValid s v (ground arith) (vector_index h.vector)
                              (dynamic_index h.vector (ground arith)) (ground arith)

-- One call, with any arguments and whatever the processor answers.
pub data Step : VectorState → VectorState → Type 0 where
  initializing : (ready on : Bool) (s : VectorState) → Step s (initialize ready on s).1
  allocating_specific :
      (given on : Bool) (vector : ℕ) (h : Handle) (s : VectorState)
      → Step s (allocate_specific given on vector h s).2
  allocating : (given on : Bool) (h : Handle) (s : VectorState) → Step s (allocate given on h s).2
  releasing : (given on : Bool) (h : Handle) (s : VectorState) → Step s (release given on h s).2

pub data Reached : VectorState → Type 0 where
  at_boot : Reached unset
  by_call : {s t : VectorState} → Reached s → Step s t → Reached t

Step-IsValid : {s t : VectorState} → Step s t → IsValid s → IsValid t
Step-IsValid (initializing ready on s) v = initialize-IsValid ready on s v
Step-IsValid (allocating_specific given on vector h s) v =
    allocate_specific-IsValid given on vector h s v
Step-IsValid (allocating given on h s) v = allocate-IsValid given on h s v
Step-IsValid (releasing given on h s) v = release-IsValid given on h s v

-- In every state that calls of the four operations reach from boot, with any arguments and any
-- answers of the processor, both arrays keep their length, the count of allocated vectors is that
-- of the array, and the free count is the rest once the table is active and 0 before.
pub Reached-IsValid : {s : VectorState} → Reached s → IsValid s
Reached-IsValid at_boot = unset-IsValid
Reached-IsValid (by_call r st) = Step-IsValid st (Reached-IsValid r)
