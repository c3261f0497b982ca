-- ===== src/Frames/Single/Effect.antt =====
-- What taking and returning one frame do to the allocator.
use native.Mathlib.Decide.{ℕ_discrete}
use pyrenis.Base.{ℕ, ◌+◌, ◌<◌, ◌≡◌, true, false, arith, ◌==◌, if◌then◌else◌}
use pyrenis.Base.Count.{count_below, count_below-insert, count_below-le}
use pyrenis.Frames.Bitmap.{bitmap_get, bitmap_get-set, bitmap_set-IsBitmap}
use pyrenis.Frames.Records.{frame_in_contiguous_allocation}
use pyrenis.Frames.State.{FrameState}
use pyrenis.Frames.Invariant.{is_free, is_taken, IsValid, IsSmall}
use pyrenis.Frames.Single.{take_frame, return_frame}

module _ (frames : ℕ) (s : FrameState) (valid : IsValid frames s) (frame : ℕ)
    (inside : frame < frames) where
  pub used-take :
      (g : ℕ)
      → bitmap_get (take_frame frames frame s).used g
        ≡ (if frame == g then true else bitmap_get s.used g)
  unfolding take_frame
  used-take g = bitmap_get-set frames s.used frame g true valid.used_bits inside

  pub used-return :
      (g : ℕ)
      → bitmap_get (return_frame frames frame s).used g
        ≡ (if frame == g then false else bitmap_get s.used g)
  unfolding return_frame
  used-return g = bitmap_get-set frames s.used frame g false valid.used_bits inside

  -- The counts move by one against each other.
  pub counts-take :
      is_free s frame ≡ true
      → (count_below frames (is_free s)
          ≡ count_below frames (is_free (take_frame frames frame s)) + 1)
        × (count_below frames (is_taken (take_frame frames frame s))
            ≡ count_below frames (is_taken s) + 1)
  unfolding take_frame
  counts-take free = (
    count_below-insert (is_free (take_frame frames frame s)) (is_free s) frames frame inside
        (ground (arith, used-take frame)) free (λ g l ne. ground (arith, used-take g, ne)),
    count_below-insert (is_taken s) (is_taken (take_frame frames frame s)) frames frame inside
        (ground arith) (ground (arith, used-take frame))
        (λ g l ne. ground (arith, used-take g, ne)),
  )

  pub counts-return :
      is_taken s frame ≡ true
      → (count_below frames (is_free (return_frame frames frame s))
          ≡ count_below frames (is_free s) + 1)
        × (count_below frames (is_taken s)
            ≡ count_below frames (is_taken (return_frame frames frame s)) + 1)
  unfolding return_frame
  counts-return taken = (
    count_below-insert (is_free s) (is_free (return_frame frames frame s)) frames frame inside
        (ground arith) (ground (arith, used-return frame))
        (λ g l ne. ground (arith, used-return g, ne)),
    count_below-insert (is_taken (return_frame frames frame s)) (is_taken s) frames frame inside
        (ground (arith, used-return frame)) taken (λ g l ne. ground (arith, used-return g, ne)),
  )

  module _ (small : IsSmall frames) where
    -- Taking a free frame keeps the allocator valid.
    pub take_frame-IsValid : is_free s frame ≡ true → IsValid frames (take_frame frames frame s)
    unfolding take_frame
    take_frame-IsValid free =
        let (fewer, more) = counts-take free in
        record {
          eligible_bits = valid.eligible_bits;
          used_bits = bitmap_set-IsBitmap frames s.used frame true valid.used_bits;
          free_count = omega (arith, fewer, valid.free_count, count_below-le (is_free s) frames);
          allocated_count =
              omega (arith, more, valid.allocated_count, count_below-le (is_taken s) frames);
          table = valid.table;
          search_start = ground arith;
          owned = λ f. ground (arith, valid.owned f, used-take f);
        }

    -- So does returning a taken frame that no contiguous allocation covers.
    pub return_frame-IsValid :
        is_taken s frame ≡ true
        → frame_in_contiguous_allocation s.records frame ≡ false
        → IsValid frames (return_frame frames frame s)
    unfolding return_frame
    return_frame-IsValid taken loose =
        let (more, fewer) = counts-return taken in
        record {
          eligible_bits = valid.eligible_bits;
          used_bits = bitmap_set-IsBitmap frames s.used frame false valid.used_bits;
          free_count = omega (arith, more, valid.free_count, count_below-le (is_free s) frames);
          allocated_count =
              omega (arith, fewer, valid.allocated_count, count_below-le (is_taken s) frames);
          table = valid.table;
          search_start = ground (arith, valid.search_start);
          owned = λ f. elim (ℕ_discrete frame f) [
            | yes e ↦ rw (← e, loose)
            | no ne ↦ ground (arith, valid.owned f, used-return f, ne)
          ];
        }
