-- ===== src/Frames/Tests.antt =====
-- Runs and instances of src/kernel/physical_memory.c, with sixteen frames and with three hundred.
use native.Mathlib.Decide.{ℕ_discrete}
use pyrenis.Base.{
  ℕ, ◌+◌, ◌*◌, ◌%◌, ◌≤◌, ◌<◌, ◌≡◌, refl, true, false, not, ◌&&◌, ◌||◌, some, [], ◌∷◌, arith,
}
use pyrenis.Base.Count.{count_below}
use pyrenis.Frames.Bitmap.{bitmap_get, bitmap_set, bitmap_fill}
use pyrenis.Frames.Records.{no_record, frame_in_contiguous_allocation, covers_frame, owners}
use pyrenis.Frames.State.{ok, double_free, frame_in_use, FrameState, page_size}
use pyrenis.Frames.Invariant.{is_free, is_taken, implies, IsValid}
use pyrenis.Frames.Single.{find_free, take_frame, return_frame, frame_allocate, frame_release}
use pyrenis.Frames.Single.Calls.{frame_allocate-total, frame_release-allocate}
use pyrenis.Frames.Range.{
  checked_range_end, available_frame_bounds, covering_frame_bounds, mark_frames,
  mark_available_frames, mark_reserved_frames, account, recompute_from, recompute_stats, any_frame,
  withdraw, frame_reserve_range,
}
use pyrenis.Frames.Range.Exact.{touches}
use pyrenis.Frames.Range.Reserve.{frame_reserve_range_exact}
use pyrenis.Frames.Contiguous.{
  Request, cleared, power_of_two, find_record, all_frames, maximum_past_frame, check_request,
  find_run, commit_run, frame_allocate_contiguous, frame_release_contiguous,
}
use pyrenis.Frames.Contiguous.Commit.{in_run}
use pyrenis.Frames.Contiguous.Calls.{
  frame_allocate_contiguous_grant, frame_allocate_contiguous_complete,
}
use pyrenis.Frames.Contiguous.Return.{release-allocate_contiguous}
use pyrenis.Frames.Setup.{
  BootInformation, mark_available, mark_reserved, pass_over, apply_region, apply_pass,
  apply_memory_map, reserve_internal, reserve_image, reserve_information, prepare_maps, finish,
  frame_allocator_initialize,
}
use pyrenis.Frames.Setup.Initial.{usable, frame_allocator_initialize_lem}
use pyrenis.Frames.Steps.{start, allocates, reserves, allocates_run, Called-IsValid}

-- Frames 4 to 15 are managed; 4 is handed out, and 8 and 9 are a contiguous run.
abbrev small_state : FrameState
small_state = record {
  eligible = 0xf0 ∷ 0xff ∷ [];
  used = 0x1f ∷ 0x03 ∷ [];
  stats = record {
    addressable_frames = 16;
    allocatable_frames = 12;
    free_frames = 9;
    allocated_frames = 3;
    reserved_frames = 4;
    highest_allocatable_address = 0x10000;
  };
  next_search = 5;
  initialized = true;
  records =
      record { physical_base = 0x8000; page_count = 2; identifier = 1; active = true }
      ∷ no_record
      ∷ [];
  next_identifier = 2;
}

small_owned :
    (f : ℕ)
    → implies (frame_in_contiguous_allocation small_state.records f) (is_taken small_state f) ≡ true
unfolding frame_in_contiguous_allocation covers_frame bitmap_get
small_owned f = elim (ℕ_discrete f 8) [
  | yes e ↦ rw e
  | no n8 ↦ elim (ℕ_discrete f 9) [ yes e ↦ rw e | no n9 ↦ ground arith ]
]

small_single : (f : ℕ) → owners small_state.records f ≤ 1
unfolding owners covers_frame
small_single f = ground arith

small-IsValid : IsValid 16 small_state
unfolding count_below bitmap_get
small-IsValid = record {
  eligible_bits = record { bytes = omega arith; covers = refl };
  used_bits = record { bytes = omega arith; covers = refl };
  free_count = refl;
  allocated_count = refl;
  search_start = omega arith;
  owned = small_owned;
  table = record { fits = (refl, (refl, tt)); single = small_single };
}

-- The search starts at frame 5, which is free.
allocated : frame_allocate 16 true small_state ≡ (ok, some 0x5000, take_frame 16 5 small_state)
unfolding frame_allocate find_free bitmap_get
allocated = refl

-- Frame 9 belongs to the run, frame 5 is free already.
releases :
    ((frame_release 16 0x9000 small_state).0 ≡ frame_in_use)
    × ((frame_release 16 0x5000 small_state).0 ≡ double_free)
    × ((frame_release 16 0x4000 small_state).0 ≡ ok)
unfolding frame_release bitmap_get frame_in_contiguous_allocation covers_frame
releases = (refl, refl, refl)

releases_four : frame_release 16 0x4000 small_state ≡ (ok, return_frame 16 4 small_state)
unfolding frame_release bitmap_get frame_in_contiguous_allocation covers_frame
releases_four = refl

frame_allocate-total_example :
    (f : ℕ) × (f < 16)
    × (is_free small_state f ≡ true)
    × (frame_allocate 16 true small_state ≡ (ok, some (f * page_size), take_frame 16 f small_state))
    × (is_taken (take_frame 16 f small_state) f ≡ true)
unfolding count_below bitmap_get
frame_allocate-total_example =
    frame_allocate-total 16 (omega arith) small_state small-IsValid refl (omega arith)

frame_release-allocate_example :
    (u : FrameState) × (frame_release 16 0x5000 (take_frame 16 5 small_state) ≡ (ok, u))
    × ((g : ℕ) → bitmap_get u.used g ≡ bitmap_get small_state.used g)
    × (u.eligible ≡ small_state.eligible)
    × (u.stats ≡ small_state.stats)
frame_release-allocate_example =
    frame_release-allocate 16 (omega arith) small_state small-IsValid allocated

-- A request for two frames on an eight-kilobyte boundary, anywhere below the limit.
abbrev request : Request
request = record { page_count = 2; alignment = 0x2000; maximum_physical_address = 0xffff }

grants :
    frame_allocate_contiguous 16 true request cleared small_state
    ≡ (ok, (commit_run 16 1 6 request small_state).0, (commit_run 16 1 6 request small_state).1)
unfolding frame_allocate_contiguous check_request power_of_two maximum_past_frame find_record
    find_run all_frames bitmap_get
grants = refl

frame_allocate_contiguous_grant_example :
    let (h, t) = commit_run 16 1 6 request small_state in
    (first : ℕ) × (h.physical_base ≡ first * page_size)
    × (h.page_count ≡ 2)
    × (h.active ≡ true)
    × (h.physical_base % 0x2000 ≡ 0)
    × (h.physical_base + 2 * page_size ≤ 0xffff + 1)
    × ((g : ℕ)
        → (implies (in_run first (first + 2) g) (is_free small_state g) ≡ true)
          × (bitmap_get t.used g ≡ (in_run first (first + 2) g || bitmap_get small_state.used g)))
frame_allocate_contiguous_grant_example =
    frame_allocate_contiguous_grant 16 (omega arith) small_state small-IsValid request cleared
      (commit_run 16 1 6 request small_state).0 (commit_run 16 1 6 request small_state).1
      (omega arith) (omega arith) grants

frame_allocate_contiguous_complete_example :
    (frame_allocate_contiguous 16 true request cleared small_state).0 ≡ ok
unfolding check_request power_of_two maximum_past_frame find_record all_frames bitmap_get
frame_allocate_contiguous_complete_example =
    frame_allocate_contiguous_complete 16 (omega arith) small_state small-IsValid request cleared 1
      12 refl refl refl (omega arith) refl

release-allocate_contiguous_example :
    let (h, t) = commit_run 16 1 6 request small_state in
    (u : FrameState) × (frame_release_contiguous true h t ≡ (ok, record h { active = false }, u))
    × ((f : ℕ) → bitmap_get u.used f ≡ bitmap_get small_state.used f)
    × (u.eligible ≡ small_state.eligible)
    × (u.stats ≡ small_state.stats)
release-allocate_contiguous_example =
    release-allocate_contiguous 16 (omega arith) small_state small-IsValid request cleared
      (commit_run 16 1 6 request small_state).0 (commit_run 16 1 6 request small_state).1
      (omega arith) (omega arith) refl (refl, (refl, tt)) grants

-- Bytes 0xa800 to 0xbfff touch frames 10 and 11.
reserved : frame_reserve_range 16 0xa800 0x1800 small_state ≡ (ok, withdraw 16 10 12 small_state)
unfolding frame_reserve_range covering_frame_bounds checked_range_end any_frame bitmap_get
reserved = refl

frame_reserve_range_exact_example :
    (bitmap_get (withdraw 16 10 12 small_state).eligible 10
      ≡ (bitmap_get small_state.eligible 10 && not (touches 16 0xa800 0x1800 10)))
    × ((is_taken small_state 10 && touches 16 0xa800 0x1800 10) ≡ false)
frame_reserve_range_exact_example =
    frame_reserve_range_exact 16 (omega arith) small_state small-IsValid 0xa800 0x1800 (omega arith)
      reserved 10

-- Three hundred frames: one available region from 512 KiB on, and a reserved page.
abbrev boot : BootInformation
boot = record {
  memory_map =
      some (record { base_address = 0x80000; length = 0xa0800; kind = 1 })
      ∷ some (record { base_address = 0x110000; length = 0x1000; kind = 2 })
      ∷ [];
  information_start = 0x108000;
  information_end = 0x108400;
  kernel_start = 0x100000;
  kernel_end = 0x104000;
}

abbrev blank : FrameState
blank = record {
  eligible = [];
  used = [];
  stats = small_state.stats;
  next_search = 0;
  initialized = false;
  records = [];
  next_identifier = 0;
}

abbrev booted : FrameState
booted = (frame_allocator_initialize 300 (some boot) blank).1

starts : frame_allocator_initialize 300 (some boot) blank ≡ (ok, booted)
unfolding frame_allocator_initialize finish prepare_maps apply_memory_map apply_pass apply_region
    mark_available pass_over mark_reserved reserve_internal reserve_image reserve_information
    available_frame_bounds covering_frame_bounds checked_range_end mark_available_frames
    mark_reserved_frames mark_frames recompute_stats recompute_from account bitmap_get bitmap_set
    bitmap_fill
starts = refl

frame_allocator_initialize_lem_example :
    IsValid 300 booted
    × (booted.initialized ≡ true)
    × (0 < booted.stats.free_frames)
    × ((g : ℕ) → bitmap_get booted.eligible g ≡ usable 300 boot g)
    × ((g : ℕ) → is_taken booted g ≡ false)
frame_allocator_initialize_lem_example =
    frame_allocator_initialize_lem 300 (omega arith) boot blank booted
      (record {
        map_words = omega arith;
        kernel_word = omega arith;
        kernel_end_word = omega arith;
        information_end_word = omega arith;
        information_word = omega arith;
      })
      starts

-- After the start, a frame and a run of two are handed out and a range is reserved.
abbrev run_request : Request
run_request = record { page_count = 2; alignment = 0x2000; maximum_physical_address = 0xffff_ffff }

Called-IsValid_example :
    IsValid 300
      (frame_allocate_contiguous 300 true run_request cleared
        (frame_reserve_range 300 0xa0000 0x1000 (frame_allocate 300 true booted).2).1).2
Called-IsValid_example =
    Called-IsValid 300 (omega arith) boot blank booted _
      (record {
        map_words = omega arith;
        kernel_word = omega arith;
        kernel_end_word = omega arith;
        information_end_word = omega arith;
        information_word = omega arith;
      })
      starts
      (allocates_run true run_request cleared (omega arith) (omega arith)
        (reserves 0xa0000 0x1000 (allocates true start)))
