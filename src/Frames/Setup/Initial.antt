-- ===== src/Frames/Setup/Initial.antt =====
-- The allocator that frame_allocator_initialize leaves behind.
use pyrenis.Base.{
  ℕ, ◌+◌, ◌-◌, ◌/◌, ◌^◌, ◌<◌, ◌≡◌, ◌≢◌, refl, inl, inr, Bool, true, false, not, ◌&&◌, some, arith,
  ltb, Bool-cases, replicate,
}
use pyrenis.Base.Words.{sub64}
use pyrenis.Base.Count.{count_below, count_below-find}
use pyrenis.Frames.Bitmap.{bitmap_get, bitmap_fill-IsBitmap, bitmap_get-fill}
use pyrenis.Frames.Records.{no_record, owners_iff, vacant_owners, vacant-IsTable}
use pyrenis.Frames.State.{
  Status, ok, FrameState, page_size, low_memory_reservation, contiguous_capacity,
}
use pyrenis.Frames.Invariant.{is_taken, IsValid, IsSmall}
use pyrenis.Frames.Range.{covering_frame_bounds, recompute_stats}
use pyrenis.Frames.Range.Exact.{touches, covering-Fits, covering_frame_bounds_exact}
use pyrenis.Frames.Range.Marks.{recompute_stats-Counts}
use pyrenis.Frames.Setup.{
  BootInformation, Maps, apply_pass, apply_memory_map, and_then, reserve_internal, reserve_image,
  reserve_information, prepare_maps, empty_maps, reset, finish, frame_allocator_initialize,
}
use pyrenis.Frames.Setup.Stages.{
  IsStage, kept-IsStage, mark_reserved-IsStage, in_available, in_reserved, AreWords,
  mark_reserved-no_wrap, and_then-ok, first_pass-IsStage, second_pass-IsStage,
}

-- The frames that may be handed out after a start: whole inside an available region, and clear
-- of every reserved region, of low memory, of the kernel and of the boot information.
abbrev pub usable : ℕ → BootInformation → ℕ → Bool
usable frames info g =
    in_available frames info.memory_map g
    && (not (in_reserved frames info.memory_map g)
        && (not (touches frames 0 low_memory_reservation g)
            && (not (touches frames info.kernel_start (info.kernel_end - info.kernel_start) g)
                && not (
                    touches frames info.information_start
                      (info.information_end - info.information_start) g))))

-- The numbers of the boot information are words.
pub record IsInformation (info : BootInformation) : Type 0 where
  pub map_words : AreWords info.memory_map
  pub kernel_word : info.kernel_start < 2 ^ 64
  pub kernel_end_word : info.kernel_end < 2 ^ 64
  pub information_word : info.information_start < 2 ^ 64
  pub information_end_word : info.information_end < 2 ^ 64

module _ (frames : ℕ) (small : IsSmall frames) where
  reserve_internal-IsStage :
      (spec : ℕ → Bool) (base length : ℕ) (maps maps' : Maps)
      → base < 2 ^ 64
      → IsStage frames spec maps
      → reserve_internal frames base length maps ≡ (ok, maps')
      → IsStage frames (λ g. spec g && not (touches frames base length g)) maps'
  unfolding reserve_internal
  reserve_internal-IsStage spec base length maps maps' w v e =
      let whole = mark_reserved-no_wrap frames base length w maps maps' e in
      kept-IsStage frames refl
        (λ g. ground (arith, covering_frame_bounds_exact frames small base length whole g))
        (mark_reserved-IsStage frames spec (covering_frame_bounds frames base length) maps maps'
          (covering-Fits frames base length) v e)

  reserve_image-IsStage :
      (spec : ℕ → Bool) (info : BootInformation) (maps maps' : Maps)
      → IsInformation info
      → IsStage frames spec maps
      → reserve_image frames info maps ≡ (ok, maps')
      → IsStage frames
          (λ g.
            spec g
            && not (touches frames info.kernel_start (info.kernel_end - info.kernel_start) g))
          maps'
  unfolding reserve_image
  reserve_image-IsStage spec info maps maps' w v e =
      elim (Bool-cases (ltb info.kernel_end info.kernel_start)) [
        | inl backwards ↦ absurd (ground (arith, rw backwards at e))
        | inr forwards ↦
            reserve_internal-IsStage spec info.kernel_start (info.kernel_end - info.kernel_start)
              maps maps' w.kernel_word v (rw forwards at e)
      ]

  reserve_information-IsStage :
      (spec : ℕ → Bool) (info : BootInformation) (maps maps' : Maps)
      → IsInformation info
      → IsStage frames spec maps
      → reserve_information frames info maps ≡ (ok, maps')
      → IsStage frames
          (λ g.
            spec g
            && not (
                touches frames info.information_start
                  (info.information_end - info.information_start)
                  g))
          maps'
  unfolding reserve_information reserve_internal
  reserve_information-IsStage spec info maps maps' w v e =
      let whole =
        mark_reserved-no_wrap frames info.information_start
          (sub64 info.information_end info.information_start) w.information_word maps maps' e in
      let size : sub64 info.information_end info.information_start
          ≡ info.information_end - info.information_start =
        omega (arith, whole, w.information_word, w.information_end_word) in
      reserve_internal-IsStage spec info.information_start
        (info.information_end - info.information_start) maps maps' w.information_word v
        (rw size at e)

  empty-IsStage : IsStage frames (λ g. false) (empty_maps frames)
  empty-IsStage = record {
    eligible_bits = bitmap_fill-IsBitmap frames 0 (omega arith);
    used_bits = bitmap_fill-IsBitmap frames 255 (omega arith);
    eligible_is = λ g. bitmap_get-fill ((frames + 7) / 8) g;
    idle = λ g. rw (bitmap_get-fill ((frames + 7) / 8) g);
  }

  prepare_maps-IsStage :
      (info : BootInformation) (maps : Maps)
      → IsInformation info
      → prepare_maps frames info (empty_maps frames) ≡ (ok, maps)
      → IsStage frames (usable frames info) maps
  unfolding prepare_maps apply_memory_map
  prepare_maps-IsStage info maps w e =
      let (m3, e3, last) =
        and_then-ok
          (and_then
            (and_then (apply_memory_map frames info.memory_map (empty_maps frames))
              (reserve_internal frames 0 low_memory_reservation))
            (reserve_image frames info))
          (reserve_information frames info) maps e in
      let (m2, e2, image) =
        and_then-ok
          (and_then (apply_memory_map frames info.memory_map (empty_maps frames))
            (reserve_internal frames 0 low_memory_reservation))
          (reserve_image frames info) m3 e3 in
      let (m1, e1, low) =
        and_then-ok (apply_memory_map frames info.memory_map (empty_maps frames))
          (reserve_internal frames 0 low_memory_reservation) m2 e2 in
      let (m0, pass1, pass2) =
        and_then-ok (apply_pass frames true info.memory_map (empty_maps frames))
          (apply_pass frames false info.memory_map) m1 e1 in
      let v0 =
        first_pass-IsStage frames small info.memory_map (λ g. false) (empty_maps frames) m0
          w.map_words empty-IsStage pass1 in
      let v1 =
        second_pass-IsStage frames small info.memory_map (in_available frames info.memory_map) m0 m1
          w.map_words v0 pass2 in
      let v2 = reserve_internal-IsStage _ 0 low_memory_reservation m1 m2 (omega arith) v1 low in
      let v3 = reserve_image-IsStage _ info m2 m3 w v2 image in
      kept-IsStage frames refl (λ g. ground arith)
        (reserve_information-IsStage _ info m3 maps w v3 last)

  some_usable :
      (info : BootInformation) (maps : Maps)
      → IsStage frames (usable frames info) maps
      → 0 < count_below frames (λ g. bitmap_get maps.0 g && not (bitmap_get maps.1 g))
      → low_memory_reservation / page_size < frames
  some_usable info maps v h =
      let (f, l, free) =
        count_below-find (λ g. bitmap_get maps.0 g && not (bitmap_get maps.1 g)) frames h in
      ground (arith, v.eligible_is f)

  -- The state that a successful start builds from the maps.
  started : FrameState → Maps → FrameState
  started s maps = record (reset frames s maps) {
    stats = recompute_stats frames maps.0 maps.1;
    next_search = low_memory_reservation / page_size;
    initialized = true;
  }

  started-IsValid :
      (info : BootInformation) (s : FrameState) (maps : Maps)
      → IsStage frames (usable frames info) maps
      → (recompute_stats frames maps.0 maps.1).free_frames ≢ 0
      → IsValid frames (started s maps)
  unfolding started
  started-IsValid info s maps v ne =
      let c = recompute_stats-Counts maps.0 maps.1 frames small in
      record {
        eligible_bits = v.eligible_bits;
        used_bits = v.used_bits;
        free_count = c.free;
        allocated_count = c.allocated;
        search_start = some_usable info maps v (omega (arith, c.free));
        owned = λ f. ground (
          arith,
          owners_iff (replicate contiguous_capacity no_record) f,
          vacant_owners contiguous_capacity f,
        );
        table = vacant-IsTable frames contiguous_capacity;
      }

  finish_cases :
      (s t : FrameState) (r : Status × Maps)
      → finish frames s r ≡ (ok, t)
      → (r.0 ≡ ok) × ((recompute_stats frames r.1.0 r.1.1).free_frames ≢ 0) × (t ≡ started s r.1)
  unfolding finish started
  finish_cases s t (ok, maps) e = ground arith
  finish_cases s t (st, maps) e = absurd (ground arith)

  -- For fewer than 2^52 frames and boot information whose numbers are machine words, its ranges
  -- free to wrap, a start that answers ok leaves a valid allocator with a free frame. The frames
  -- it manages are exactly the usable ones, and none of them is handed out.
  pub frame_allocator_initialize_lem :
      (info : BootInformation) (s t : FrameState)
      → IsInformation info
      → frame_allocator_initialize frames (some info) s ≡ (ok, t)
      → IsValid frames t
        × (t.initialized ≡ true)
        × (0 < t.stats.free_frames)
        × ((g : ℕ) → bitmap_get t.eligible g ≡ usable frames info g)
        × ((g : ℕ) → is_taken t g ≡ false)
  unfolding frame_allocator_initialize started
  frame_allocator_initialize_lem info s t w e =
      let r = prepare_maps frames info (empty_maps frames) in
      let (fine, some_free, built) = finish_cases s t r e in
      let v = prepare_maps-IsStage info r.1 w (ground (arith, fine)) in
      rw built (
        started-IsValid info s r.1 v some_free,
        refl,
        omega (arith, some_free),
        v.eligible_is,
        v.idle,
      )
