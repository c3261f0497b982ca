-- ===== src/Frames/State.antt =====
-- The state of src/kernel/physical_memory.c, and the types of include/sapote/memory.h.
use pyrenis.Base.{ℕ, ◌*◌, Bool, List}
use pyrenis.Frames.Bitmap.{Bitmap}

abbrev pub page_size : ℕ
page_size = 4096

abbrev pub low_memory_reservation : ℕ
low_memory_reservation = 0x100000

abbrev pub contiguous_capacity : ℕ
contiguous_capacity = 32

pub data Status : Type 0 where
  ok null_argument not_initialized bad_memory_map range_overflow : Status
  range_outside_limit out_of_memory unaligned_address frame_not_allocatable : Status
  frame_in_use double_free zero_page_count bad_alignment : Status
  alignment_unsatisfiable address_bound_unsatisfied : Status
  too_many_contiguous_allocations bad_contiguous_allocation : Status

pub record Stats : Type 0 where
  pub addressable_frames : ℕ
  pub allocatable_frames : ℕ
  pub free_frames : ℕ
  pub allocated_frames : ℕ
  pub reserved_frames : ℕ
  pub highest_allocatable_address : ℕ

pub record ContiguousRecord : Type 0 where
  pub physical_base : ℕ
  pub page_count : ℕ
  pub identifier : ℕ
  pub active : Bool

pub record FrameState : Type 0 where
  pub eligible : Bitmap
  pub used : Bitmap
  pub stats : Stats
  pub next_search : ℕ
  pub initialized : Bool
  pub records : List ContiguousRecord
  pub next_identifier : ℕ

-- The end of the memory that the allocator manages, SAPOTE_EARLY_PHYSICAL_LIMIT.
abbrev pub early_limit : ℕ → ℕ
early_limit frames = frames * page_size
