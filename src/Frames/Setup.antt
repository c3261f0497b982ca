-- ===== src/Frames/Setup.antt =====
-- apply_memory_map, reserve_internal and frame_allocator_initialize of
-- src/kernel/physical_memory.c. The memory map is the list of what boot_information_region_at
-- answers for each index, `none` where it refuses.
pub mod Stages
pub mod Initial
use pyrenis.Base.{
  ℕ, ◌+◌, ◌-◌, ◌/◌, Bool, true, false, not, Option, none, some, List, [], ◌∷◌, ltb, ◌==◌,
  if◌then◌else◌, replicate,
}
use pyrenis.Base.Words.{sub64}
use pyrenis.Frames.Bitmap.{Bitmap, bitmap_fill}
use pyrenis.Frames.Records.{no_record}
use pyrenis.Frames.State.{
  Status, ok, null_argument, bad_memory_map, range_overflow, range_outside_limit, out_of_memory,
  FrameState, page_size, low_memory_reservation, contiguous_capacity,
}
use pyrenis.Frames.Range.{
  Bounds, refused, span, available_frame_bounds, covering_frame_bounds, mark_available_frames,
  mark_reserved_frames, recompute_stats,
}

pub record Region : Type 0 where
  pub base_address : ℕ
  pub length : ℕ
  pub kind : ℕ

-- What the allocator reads of `struct boot_information`, and the ends of the kernel's image.
pub record BootInformation : Type 0 where
  pub memory_map : List (Option Region)
  pub information_start : ℕ
  pub information_end : ℕ
  pub kernel_start : ℕ
  pub kernel_end : ℕ

abbrev pub Maps : Type 0
Maps = Bitmap × Bitmap

-- MULTIBOOT2_MEMORY_AVAILABLE
abbrev pub is_available : Region → Bool
is_available r = r.kind == 1

unfoldable pub mark_available : Bounds → Maps → Status × Maps
mark_available (refused st) maps = (st, maps)
mark_available (span first past) maps = (ok, mark_available_frames first past maps)

unfoldable pub mark_reserved : Bounds → Maps → Status × Maps
mark_reserved (refused st) maps = (st, maps)
mark_reserved (span first past) maps = (ok, mark_reserved_frames first past maps)

-- A reserved region past the limit is passed over.
unfoldable pub pass_over : Bounds → Maps → Status × Maps
pass_over (refused range_outside_limit) maps = (ok, maps)
pass_over b maps = mark_reserved b maps

-- Runs a step on the maps if the ones before it succeeded.
abbrev pub and_then : Status × Maps → (Maps → Status × Maps) → Status × Maps
and_then (st, maps) step = elim st [ ok ↦ step maps | other ↦ (other, maps) ]

module _ (frames : ℕ) where
  unfoldable pub apply_region : Bool → Option Region → Maps → Status × Maps
  apply_region first_pass none maps = (bad_memory_map, maps)
  apply_region true (some r) maps =
      if is_available r
      then mark_available (available_frame_bounds frames r.base_address r.length) maps
      else (ok, maps)
  apply_region false (some r) maps =
      if is_available r
      then (ok, maps)
      else pass_over (covering_frame_bounds frames r.base_address r.length) maps

  -- The rest of the pass waits for the status of the region.
  unfoldable pub apply_pass : Bool → List (Option Region) → Maps → Status × Maps
  apply_pass first_pass [] maps = (ok, maps)
  apply_pass first_pass (r ∷ rs) maps =
      let (st, maps') = apply_region first_pass r maps in
      elim st [ ok ↦ apply_pass first_pass rs maps' | other ↦ (other, maps') ]

  unfoldable pub apply_memory_map : List (Option Region) → Maps → Status × Maps
  apply_memory_map regions maps = and_then (apply_pass true regions maps) (apply_pass false regions)

  unfoldable pub reserve_internal : ℕ → ℕ → Maps → Status × Maps
  reserve_internal base length maps = mark_reserved (covering_frame_bounds frames base length) maps

  unfoldable pub reserve_image : BootInformation → Maps → Status × Maps
  reserve_image info maps =
      if ltb info.kernel_end info.kernel_start
      then (range_overflow, maps)
      else reserve_internal info.kernel_start (info.kernel_end - info.kernel_start) maps

  unfoldable pub reserve_information : BootInformation → Maps → Status × Maps
  reserve_information info maps =
      reserve_internal info.information_start (sub64 info.information_end info.information_start)
        maps

  -- Everything that is written to the maps before the counts are taken.
  unfoldable pub prepare_maps : BootInformation → Maps → Status × Maps
  prepare_maps info maps =
      and_then
        (and_then
          (and_then (apply_memory_map info.memory_map maps)
            (reserve_internal 0 low_memory_reservation))
          (reserve_image info))
        (reserve_information info)

  abbrev pub empty_maps : Maps
  empty_maps = (bitmap_fill ((frames + 7) / 8) 0, bitmap_fill ((frames + 7) / 8) 255)

  abbrev pub reset : FrameState → Maps → FrameState
  reset s (eligible, used) = record s {
    eligible = eligible;
    used = used;
    initialized = false;
    next_search = 0;
    next_identifier = 1;
    records = replicate contiguous_capacity no_record;
  }

  unfoldable pub finish : FrameState → Status × Maps → Status × FrameState
  finish s (ok, (eligible, used)) =
      let stats = recompute_stats frames eligible used in
      let t = record (reset s (eligible, used)) { stats = stats } in
      if stats.free_frames == 0
      then (out_of_memory, t)
      else (ok, record t { next_search = low_memory_reservation / page_size; initialized = true })
  finish s (st, maps) = (st, reset s maps)

  -- `none` is a null context or one with no memory map.
  unfoldable pub frame_allocator_initialize :
      Option BootInformation → FrameState → Status × FrameState
  frame_allocator_initialize none s = (null_argument, s)
  frame_allocator_initialize (some info) s = finish s (prepare_maps info empty_maps)
