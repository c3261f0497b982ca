-- ===== src/Vectors/Tests.antt =====
-- Runs and instances of src/kernel/interrupt_vector.c.
use pyrenis.Base.{ℕ, ◌≡◌, refl, true, false, replicate, arith}
use pyrenis.Base.Count.{count_below}
use pyrenis.Vectors.Table.{
  Handle, VectorState, vector_count, dynamic_base, cleared, unset, is_dynamic, vector_index,
  initialize, next_generation, take_vector, return_vector, allocate_specific, find_vector, allocate,
  release, ok, stale_allocation,
}
use pyrenis.Vectors.Counts.{
  taken, IsValid, at_boot, by_call, initializing, allocating, Reached-IsValid,
}
use pyrenis.Vectors.Scan.{AllTaken, handle_for, allocate_lowest}
use pyrenis.Vectors.Handles.{release-allocate_specific, release_stale}

abbrev fresh_table : VectorState
fresh_table = record {
  in_use = replicate vector_count false;
  generations = replicate vector_count 0;
  capacity = vector_count;
  allocated = 0;
  free = vector_count;
  active = true;
}

abbrev full_table : VectorState
full_table = record fresh_table {
  in_use = replicate vector_count true;
  allocated = vector_count;
  free = 0;
}

fresh-IsValid : IsValid fresh_table
unfolding count_below
fresh-IsValid = record { flags = refl; counters = refl; used_count = refl; free_count = refl }

starts : initialize true false unset ≡ (ok, fresh_table)
unfolding initialize
starts = refl

grants :
    allocate true false cleared fresh_table
    ≡ (ok, handle_for 0x90 fresh_table, take_vector 0 fresh_table)
unfolding allocate find_vector allocate_specific is_dynamic next_generation
grants = refl

abbrev first_handle : Handle
first_handle = record { vector = 0x91; generation = 1; active = true }

abbrev second_handle : Handle
second_handle = record { vector = 0x91; generation = 2; active = true }

abbrev table_one : VectorState
table_one = take_vector 1 fresh_table

abbrev table_two : VectorState
table_two = return_vector 1 table_one

abbrev table_three : VectorState
table_three = take_vector 1 table_two

grants_first : allocate_specific true false 0x91 cleared fresh_table ≡ (ok, first_handle, table_one)
unfolding allocate_specific is_dynamic next_generation
grants_first = refl

releases_first :
    release true false first_handle table_one
    ≡ (ok, record first_handle { active = false }, table_two)
unfolding release is_dynamic take_vector next_generation
releases_first = refl

grants_second :
    allocate_specific true false 0x91 cleared table_two ≡ (ok, second_handle, table_three)
unfolding allocate_specific is_dynamic take_vector return_vector next_generation
grants_second = refl

Reached-IsValid_example : IsValid (allocate true false cleared (initialize true false unset).1).2
Reached-IsValid_example = Reached-IsValid (
    by_call (by_call at_boot (initializing true false unset))
      (allocating true false cleared (initialize true false unset).1))

allocate_lowest_example :
    (vector : ℕ) × (is_dynamic vector ≡ true)
    × (taken fresh_table (vector_index vector) ≡ false)
    × AllTaken fresh_table.in_use dynamic_base vector
    × (allocate true false cleared fresh_table
        ≡ (ok, handle_for vector fresh_table, take_vector (vector_index vector) fresh_table))
unfolding count_below
allocate_lowest_example = allocate_lowest cleared fresh_table fresh-IsValid refl (omega arith)

release-allocate_specific_example :
    (u : VectorState) × (release true false first_handle table_one
      ≡ (ok, record first_handle { active = false }, u))
    × ((i : ℕ) → taken u i ≡ taken fresh_table i)
    × (u.allocated ≡ fresh_table.allocated)
    × (u.free ≡ fresh_table.free)
release-allocate_specific_example =
    release-allocate_specific 0x91 cleared first_handle fresh_table table_one fresh-IsValid
      grants_first

one-IsValid : IsValid table_one
unfolding count_below take_vector
one-IsValid = record { flags = refl; counters = refl; used_count = refl; free_count = refl }

release_stale_example :
    release true false first_handle table_three ≡ (stale_allocation, first_handle, table_three)
release_stale_example =
    release_stale 0x91 cleared first_handle (record first_handle { active = false }) cleared
      second_handle fresh_table table_one table_two table_three fresh-IsValid grants_first
      releases_first grants_second
