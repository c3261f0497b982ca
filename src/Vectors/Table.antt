-- ===== src/Vectors/Table.antt =====
-- The state and the operations of src/kernel/interrupt_vector.c. Whether interrupts are enabled,
-- and whether the descriptor tables and the local APIC are up, are arguments.
use pyrenis.Base.{
  ℕ, zero, suc, ◌+◌, ◌-◌, Bool, true, false, not, ◌&&◌, ◌||◌, Option, none, some, List, ltb, leb,
  ◌==◌, if◌then◌else◌, get_or, set, replicate,
}
use pyrenis.Base.Words.{inc32, inc64, dec64}

abbrev pub dynamic_base : ℕ
dynamic_base = 0x90

abbrev pub dynamic_limit : ℕ
dynamic_limit = 0xf0

abbrev pub vector_count : ℕ
vector_count = dynamic_limit - dynamic_base

pub data Status : Type 0 where
  ok null_argument already_initialized not_initialized interrupts_enabled reserved : Status
  already_allocated exhausted double_release stale_allocation : Status

-- `struct interrupt_vector_allocation`, the caller's handle
pub record Handle : Type 0 where
  pub vector : ℕ
  pub generation : ℕ
  pub active : Bool

-- The arrays `allocated` and `generations`, and `struct interrupt_vector_state`.
pub record VectorState : Type 0 where
  pub in_use : List Bool
  pub generations : List ℕ
  pub capacity : ℕ
  pub allocated : ℕ
  pub free : ℕ
  pub active : Bool

abbrev pub cleared : Handle
cleared = record { vector = 0; generation = 0; active = false }

-- The state before the first call.
abbrev pub unset : VectorState
unset = record {
  in_use = replicate vector_count false;
  generations = replicate vector_count 0;
  capacity = 0;
  allocated = 0;
  free = 0;
  active = false;
}

unfoldable pub is_dynamic : ℕ → Bool
is_dynamic vector = leb dynamic_base vector && ltb vector dynamic_limit

abbrev pub vector_index : ℕ → ℕ
vector_index vector = vector - dynamic_base

unfoldable pub initialize : Bool → Bool → VectorState → Status × VectorState
initialize ready interrupts_on s =
    if s.active
    then (already_initialized, s)
    else if not ready
    then (not_initialized, s)
    else if interrupts_on
    then (interrupts_enabled, s)
    else (
      ok,
      record {
        in_use = replicate vector_count false;
        generations = replicate vector_count 0;
        capacity = vector_count;
        allocated = 0;
        free = vector_count;
        active = true;
      },
    )

-- The generation after this one: zero is passed over when the count wraps.
unfoldable pub next_generation : ℕ → ℕ
next_generation g = if inc32 g == 0 then inc32 (inc32 g) else inc32 g

-- The state after handing out the vector with this index.
unfoldable pub take_vector : ℕ → VectorState → VectorState
take_vector index s = record s {
  in_use = set s.in_use index true;
  generations = set s.generations index (next_generation (get_or s.generations index 0));
  allocated = inc64 s.allocated;
  free = dec64 s.free;
}

unfoldable pub allocate_specific :
    Bool → Bool → ℕ → Handle → VectorState → Status × Handle × VectorState
allocate_specific given interrupts_on vector h s =
    let index = vector_index vector in
    if not given
    then (null_argument, h, s)
    else if not s.active
    then (not_initialized, cleared, s)
    else if interrupts_on
    then (interrupts_enabled, cleared, s)
    else if not (is_dynamic vector)
    then (reserved, cleared, s)
    else if get_or s.in_use index false
    then (already_allocated, cleared, s)
    else (
      ok,
      record {
        vector = vector;
        generation = next_generation (get_or s.generations index 0);
        active = true;
      },
      take_vector index s,
    )

-- The scan of interrupt_vector_allocate: the first vector from `vector` on that is not in use.
unfoldable pub find_vector : ℕ → ℕ → List Bool → Option ℕ
find_vector zero vector in_use = none
find_vector (suc rounds) vector in_use = elim (get_or in_use (vector_index vector) false) [
  | false ↦ some vector
  | true ↦ find_vector rounds (vector + 1) in_use
]

unfoldable pub allocate : Bool → Bool → Handle → VectorState → Status × Handle × VectorState
allocate given interrupts_on h s =
    if not given
    then (null_argument, h, s)
    else if not s.active
    then (not_initialized, record h { active = false }, s)
    else if interrupts_on
    then (interrupts_enabled, record h { active = false }, s)
    else elim (find_vector vector_count dynamic_base s.in_use) [
      | some vector ↦ allocate_specific given interrupts_on vector h s
      | none ↦ (exhausted, cleared, s)
    ]

-- The state after taking the vector with this index back.
unfoldable pub return_vector : ℕ → VectorState → VectorState
return_vector index s = record s {
  in_use = set s.in_use index false;
  allocated = dec64 s.allocated;
  free = inc64 s.free;
}

unfoldable pub release : Bool → Bool → Handle → VectorState → Status × Handle × VectorState
release given interrupts_on h s =
    let index = vector_index h.vector in
    if not given
    then (null_argument, h, s)
    else if not s.active
    then (not_initialized, h, s)
    else if interrupts_on
    then (interrupts_enabled, h, s)
    else if not (is_dynamic h.vector)
    then (reserved, h, s)
    else if not h.active || not (get_or s.in_use index false)
    then (double_release, h, s)
    else if not (get_or s.generations index 0 == h.generation)
    then (stale_allocation, h, s)
    else (ok, record h { active = false }, return_vector index s)

unfoldable pub is_allocated : ℕ → VectorState → Bool
is_allocated vector s =
    s.active && (is_dynamic vector && get_or s.in_use (vector_index vector) false)
