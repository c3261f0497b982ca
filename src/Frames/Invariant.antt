-- ===== src/Frames/Invariant.antt =====
-- What holds of the allocator between calls.
use pyrenis.Base.{ℕ, ◌<◌, ◌^◌, ◌||◌, ◌≡◌, Bool, true, not, ◌&&◌}
use pyrenis.Base.Count.{count_below}
use pyrenis.Frames.Bitmap.{IsBitmap, bitmap_get}
use pyrenis.Frames.Records.{frame_in_contiguous_allocation, IsTable}
use pyrenis.Frames.State.{FrameState}

-- A frame that `frame_allocate` may hand out, and one that is handed out.
abbrev pub is_free : FrameState → ℕ → Bool
is_free s f = bitmap_get s.eligible f && not (bitmap_get s.used f)

abbrev pub is_taken : FrameState → ℕ → Bool
is_taken s f = bitmap_get s.eligible f && bitmap_get s.used f

-- `a` holds only where `b` does.
abbrev pub implies : Bool → Bool → Bool
implies a b = not a || b

-- The bitmaps have a bit for each frame, the counts are those of the bitmaps, the search
-- starts at a frame, and every frame of a contiguous allocation is taken and
-- belongs to that one alone.
pub record IsValid (frames : ℕ) (s : FrameState) : Type 0 where
  pub eligible_bits : IsBitmap frames s.eligible
  pub used_bits : IsBitmap frames s.used
  pub free_count : s.stats.free_frames ≡ count_below frames (is_free s)
  pub allocated_count : s.stats.allocated_frames ≡ count_below frames (is_taken s)
  pub search_start : s.next_search < frames
  pub owned : (f : ℕ) → implies (frame_in_contiguous_allocation s.records f) (is_taken s f) ≡ true
  pub table : IsTable frames s.records

-- The number of frames is far below the word size; FRAME_COUNT is `2 ^ 20`.
abbrev pub IsSmall : ℕ → Type 0
IsSmall frames = frames < 2 ^ 52
