-- ===== src/Frames/Range.antt =====
-- Byte ranges as runs of frames: checked_range_end to mark_reserved_frames, and
-- frame_reserve_range and frame_range_overlaps_allocatable_memory of
-- src/kernel/physical_memory.c.
pub mod Exact
pub mod Marks
pub mod Reserve
use pyrenis.Base.{
  ℕ, zero, suc, ◌+◌, ◌-◌, ◌*◌, ◌/◌, ◌%◌, Bool, true, false, not, ◌&&◌, ◌||◌, Option, none, some,
  ltb, leb, ◌==◌, if◌then◌else◌,
}
use pyrenis.Base.Words.{u64_max, add64, inc64}
use pyrenis.Frames.Bitmap.{Bitmap, bitmap_get, bitmap_set}
use pyrenis.Frames.State.{
  Status, ok, range_overflow, range_outside_limit, not_initialized, frame_in_use, Stats, FrameState,
  page_size, early_limit,
}

-- The result of the two bounds functions: a status other than ok, or the first frame and the
-- one past the last.
pub data Bounds : Type 0 where
  refused : Status → Bounds
  span : ℕ → ℕ → Bounds

unfoldable pub checked_range_end : ℕ → ℕ → Option ℕ
checked_range_end base length =
    if ltb (u64_max - base) length then none else some (add64 base length)

module _ (frames : ℕ) where
  abbrev clip : ℕ → ℕ
  clip finish = if ltb finish (early_limit frames) then finish else early_limit frames

  -- The whole frames inside the range.
  unfoldable pub available_frame_bounds : ℕ → ℕ → Bounds
  available_frame_bounds base length = elim (checked_range_end base length) [
    | none ↦ refused range_overflow
    | some finish ↦
        let aligned_base = add64 base (page_size - 1) / page_size * page_size in
        if length == 0 || leb (early_limit frames) base
        then span 0 0
        else if leb (clip finish) aligned_base
        then span 0 0
        else span (aligned_base / page_size) (clip finish / page_size * page_size / page_size)
  ]

  -- Every frame that the range touches.
  unfoldable pub covering_frame_bounds : ℕ → ℕ → Bounds
  covering_frame_bounds base length = elim (checked_range_end base length) [
    | none ↦ refused range_overflow
    | some finish ↦
        if length == 0
        then span 0 0
        else if leb (early_limit frames) base
        then refused range_outside_limit
        else span (base / page_size)
            (clip finish / page_size + (if clip finish % page_size == 0 then 0 else 1))
  ]

-- The loops of mark_available_frames (`true false`) and mark_reserved_frames (`false true`).
unfoldable pub mark_frames : ℕ → ℕ → Bool → Bool → Bitmap × Bitmap → Bitmap × Bitmap
mark_frames zero frame e u maps = maps
mark_frames (suc rounds) frame e u (eligible, used) =
    mark_frames rounds (frame + 1) e u (bitmap_set eligible frame e, bitmap_set used frame u)

unfoldable pub mark_available_frames : ℕ → ℕ → Bitmap × Bitmap → Bitmap × Bitmap
mark_available_frames first past = mark_frames (past - first) first true false

unfoldable pub mark_reserved_frames : ℕ → ℕ → Bitmap × Bitmap → Bitmap × Bitmap
mark_reserved_frames first past = mark_frames (past - first) first false true

-- One round of the loop of recompute_stats.
unfoldable pub account : Bool → Bool → ℕ → Stats → Stats
account false used frame s = record s { reserved_frames = inc64 s.reserved_frames }
account true true frame s = record s {
  allocatable_frames = inc64 s.allocatable_frames;
  highest_allocatable_address = (frame + 1) * page_size;
  allocated_frames = inc64 s.allocated_frames;
}
account true false frame s = record s {
  allocatable_frames = inc64 s.allocatable_frames;
  highest_allocatable_address = (frame + 1) * page_size;
  free_frames = inc64 s.free_frames;
}

unfoldable pub recompute_from : ℕ → ℕ → Bitmap → Bitmap → Stats → Stats
recompute_from zero frame eligible used s = s
recompute_from (suc rounds) frame eligible used s =
    recompute_from rounds (frame + 1) eligible used
      (account (bitmap_get eligible frame) (bitmap_get used frame) frame s)

abbrev pub empty_stats : ℕ → Stats
empty_stats frames = record {
  addressable_frames = frames;
  allocatable_frames = 0;
  free_frames = 0;
  allocated_frames = 0;
  reserved_frames = 0;
  highest_allocatable_address = 0;
}

unfoldable pub recompute_stats : ℕ → Bitmap → Bitmap → Stats
recompute_stats frames eligible used = recompute_from frames 0 eligible used (empty_stats frames)

-- Whether a frame of the run passes the test that the loops of frame_reserve_range and
-- frame_range_overlaps_allocatable_memory make.
unfoldable pub any_frame : (ℕ → Bool) → ℕ → ℕ → Bool
any_frame test zero frame = false
any_frame test (suc rounds) frame = elim (test frame) [
  | true ↦ true
  | false ↦ any_frame test rounds (frame + 1)
]

module _ (frames : ℕ) where
  -- The state with a run of frames withdrawn, its counts taken anew.
  unfoldable pub withdraw : ℕ → ℕ → FrameState → FrameState
  withdraw first past s =
      let (eligible, used) = mark_reserved_frames first past (s.eligible, s.used) in
      record s { eligible = eligible; used = used; stats = recompute_stats frames eligible used }

  -- The part of frame_reserve_range after the bounds are known.
  unfoldable pub reserve_bounds : FrameState → Bounds → Status × FrameState
  reserve_bounds s (refused st) = (st, s)
  reserve_bounds s (span first past) =
      if any_frame (λ f. bitmap_get s.eligible f && bitmap_get s.used f) (past - first) first
      then (frame_in_use, s)
      else (ok, withdraw first past s)

  unfoldable pub frame_reserve_range : ℕ → ℕ → FrameState → Status × FrameState
  unfolding reserve_bounds
  frame_reserve_range base length s =
      if not s.initialized
      then (not_initialized, s)
      else reserve_bounds s (covering_frame_bounds frames base length)

  unfoldable pub frame_range_overlaps_allocatable_memory : ℕ → ℕ → FrameState → Bool
  frame_range_overlaps_allocatable_memory base length s = elim (checked_range_end base length) [
    | none ↦ false
    | some finish ↦
        let first = base / page_size in
        let past =
          clip frames finish / page_size + (if clip frames finish % page_size == 0 then 0 else 1) in
        let found = any_frame (bitmap_get s.eligible) (past - first) first in
        if not s.initialized || length == 0
        then false
        else if leb (early_limit frames) base
        then false
        else found
  ]
