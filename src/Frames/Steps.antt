-- ===== src/Frames/Steps.antt =====
-- The calls of src/kernel/physical_memory.c on a started allocator, in any order.
use pyrenis.Base.{ℕ, ◌<◌, ◌^◌, ◌≡◌, Bool, some}
use pyrenis.Frames.Contiguous.{Allocation}
use pyrenis.Frames.State.{FrameState, ok}
use pyrenis.Frames.Invariant.{IsSmall, IsValid}
use pyrenis.Frames.Single.{frame_allocate, frame_release}
use pyrenis.Frames.Single.Calls.{frame_allocate-IsValid, frame_release-IsValid}
use pyrenis.Frames.Range.{frame_reserve_range}
use pyrenis.Frames.Range.Reserve.{frame_reserve_range-IsValid}
use pyrenis.Frames.Contiguous.{Request, frame_allocate_contiguous, frame_release_contiguous}
use pyrenis.Frames.Contiguous.Calls.{frame_allocate_contiguous-IsValid}
use pyrenis.Frames.Contiguous.Return.{frame_release_contiguous-IsValid}
use pyrenis.Frames.Setup.{BootInformation, frame_allocator_initialize}
use pyrenis.Frames.Setup.Initial.{IsInformation, frame_allocator_initialize_lem}

module _ (frames : ℕ) where
  -- The states after any calls, whatever they answer; the numbers of a request are words.
  pub data Called (s : FrameState) : FrameState → Type 0 where
    start : Called s s
    allocates :
        {t : FrameState} (wanted : Bool) → Called s t → Called s (frame_allocate frames wanted t).2
    releases :
        {t : FrameState} (address : ℕ) → Called s t → Called s (frame_release frames address t).1
    reserves :
        {t : FrameState} (base length : ℕ)
        → Called s t
        → Called s (frame_reserve_range frames base length t).1
    allocates_run :
        {t : FrameState} (given : Bool) (q : Request) (handle : Allocation)
        → q.maximum_physical_address < 2 ^ 64
        → q.page_count < 2 ^ 64
        → Called s t
        → Called s (frame_allocate_contiguous frames given q handle t).2
    releases_run :
        {t : FrameState} (given : Bool) (handle : Allocation)
        → Called s t
        → Called s (frame_release_contiguous given handle t).2

  module _ (small : IsSmall frames) where
    keeps-IsValid : {s t : FrameState} → IsValid frames s → Called s t → IsValid frames t
    keeps-IsValid v start = v
    keeps-IsValid v (allocates wanted r) =
        frame_allocate-IsValid frames small _ (keeps-IsValid v r) wanted
    keeps-IsValid v (releases address r) =
        frame_release-IsValid frames small _ (keeps-IsValid v r) address
    keeps-IsValid v (reserves base length r) =
        frame_reserve_range-IsValid frames small _ (keeps-IsValid v r) base length
    keeps-IsValid v (allocates_run given q handle word count_word r) =
        frame_allocate_contiguous-IsValid frames small _ (keeps-IsValid v r) given q handle word
          count_word
    keeps-IsValid v (releases_run given handle r) =
        frame_release_contiguous-IsValid frames small _ (keeps-IsValid v r) given handle

    -- For fewer than 2^52 frames and boot information whose numbers are machine words, its ranges
    -- free to wrap, the allocator is valid after a start that answers ok and any sequence of calls
    -- of frame_allocate, frame_release, frame_reserve_range, frame_allocate_contiguous and
    -- frame_release_contiguous, whatever each answers, the numbers of a request being machine
    -- words.
    pub Called-IsValid :
        (info : BootInformation) (blank booted t : FrameState)
        → IsInformation info
        → frame_allocator_initialize frames (some info) blank ≡ (ok, booted)
        → Called booted t
        → IsValid frames t
    Called-IsValid info blank booted t w e r =
        keeps-IsValid (frame_allocator_initialize_lem frames small info blank booted w e).0 r
