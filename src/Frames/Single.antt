-- ===== src/Frames/Single.antt =====
-- frame_allocate and frame_release of src/kernel/physical_memory.c.
pub mod Effect
pub mod Search
pub mod Calls
use pyrenis.Base.{
  ℕ, zero, suc, ◌+◌, ◌-◌, ◌*◌, ◌/◌, ◌%◌, Bool, true, false, not, ◌&&◌, Option, none, some, List, [],
  ◌∷◌, ltb, leb, ◌==◌, if◌then◌else◌,
}
use pyrenis.Base.Words.{inc64, dec64, mul64}
use pyrenis.Frames.Bitmap.{Bitmap, bitmap_get, bitmap_set}
use pyrenis.Frames.Records.{frame_in_contiguous_allocation}
use pyrenis.Frames.State.{
  Status, ok, not_initialized, null_argument, out_of_memory, unaligned_address, range_outside_limit,
  frame_not_allocatable, double_free, frame_in_use, FrameState, ContiguousRecord, page_size,
  early_limit,
}

module _ (frames : ℕ) where
  -- `next_search_index + step`, wrapped once.
  abbrev pub probe : ℕ → ℕ → ℕ
  probe start step = if leb frames (start + step) then start + step - frames else start + step

  -- The scan of `frame_allocate`: the first free frame from `start` on, in `rounds` steps.
  unfoldable pub find_free : ℕ → ℕ → ℕ → Bitmap → Bitmap → Option ℕ
  find_free zero step start eligible used = none
  find_free (suc rounds) step start eligible used =
      let frame = probe start step in
      elim (bitmap_get eligible frame && not (bitmap_get used frame)) [
        | true ↦ some frame
        | false ↦ find_free rounds (step + 1) start eligible used
      ]

  -- The state after handing out `frame`.
  unfoldable pub take_frame : ℕ → FrameState → FrameState
  take_frame frame s = record s {
    used = bitmap_set s.used frame true;
    stats = record (s.stats) {
      free_frames = dec64 s.stats.free_frames;
      allocated_frames = inc64 s.stats.allocated_frames;
    };
    next_search = if frame + 1 == frames then 0 else frame + 1;
  }

  -- The address goes through `physical_address`; `wanted` is false for a null pointer.
  unfoldable pub frame_allocate : Bool → FrameState → Status × Option ℕ × FrameState
  frame_allocate wanted s =
      if not wanted
      then (null_argument, none, s)
      else if not s.initialized
      then (not_initialized, none, s)
      else if s.stats.free_frames == 0
      then (out_of_memory, none, s)
      else elim (find_free frames 0 s.next_search s.eligible s.used) [
        | none ↦ (out_of_memory, none, s)
        | some frame ↦ (ok, some (mul64 frame page_size), take_frame frame s)
      ]

  -- The state after taking `frame` back.
  unfoldable pub return_frame : ℕ → FrameState → FrameState
  return_frame frame s = record s {
    used = bitmap_set s.used frame false;
    stats = record (s.stats) {
      free_frames = inc64 s.stats.free_frames;
      allocated_frames = dec64 s.stats.allocated_frames;
    };
    next_search = if ltb frame s.next_search then frame else s.next_search;
  }

  unfoldable pub frame_release : ℕ → FrameState → Status × FrameState
  frame_release address s =
      let frame = address / page_size in
      if not s.initialized
      then (not_initialized, s)
      else if not (address % page_size == 0)
      then (unaligned_address, s)
      else if leb (early_limit frames) address
      then (range_outside_limit, s)
      else if not (bitmap_get s.eligible frame)
      then (frame_not_allocatable, s)
      else if not (bitmap_get s.used frame)
      then (double_free, s)
      else if frame_in_contiguous_allocation s.records frame
      then (frame_in_use, s)
      else (ok, return_frame frame s)
