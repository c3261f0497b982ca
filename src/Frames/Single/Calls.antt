-- ===== src/Frames/Single/Calls.antt =====
-- frame_allocate and frame_release as their callers see them.
use mathlib.Core.Bool.{false≢true}
use pyrenis.Base.{
  ℕ, ◌*◌, ◌/◌, ◌<◌, ◌≡◌, ◌≢◌, refl, sym, ap, ◌∙◌, ◌⊎◌, inl, inr, Bool, true, false, not, ◌&&◌,
  Option, some, arith, ◌==◌, Bool-cases, Option-cases,
}
use pyrenis.Base.Count.{count_below, count_below-find, count_below-le}
use pyrenis.Frames.Bitmap.{bitmap_get}
use pyrenis.Frames.Records.{frame_in_contiguous_allocation}
use pyrenis.Frames.State.{FrameState, Status, ok, double_free, page_size}
use pyrenis.Frames.Invariant.{is_free, is_taken, IsValid, IsSmall}
use pyrenis.Frames.Single.{find_free, take_frame, return_frame, frame_allocate, frame_release}
use pyrenis.Frames.Single.Effect.{
  counts-take, used-take, used-return, take_frame-IsValid, return_frame-IsValid,
}
use pyrenis.Frames.Single.Search.{find_free_sound, find_free_complete}

same_result :
    {a b : ℕ} {s t : FrameState}
    → ◌≡◌ {A = Status × Option ℕ × FrameState} (ok, some a, s) (ok, some b, t)
    → (a ≡ b) × (s ≡ t)
same_result e = (ground arith, ap (λ r. r.2) e)

module _ (frames : ℕ) (small : IsSmall frames) (s : FrameState) (valid : IsValid frames s) where
  -- frame_allocate changes nothing, or hands out a free frame.
  frame_allocate_cases :
      (wanted : Bool)
      → (((frame_allocate frames wanted s).0 ≢ ok) × ((frame_allocate frames wanted s).2 ≡ s))
        ⊎ ((f : ℕ) × (f < frames)
            × (is_free s f ≡ true)
            × (s.initialized ≡ true)
            × (frame_allocate frames wanted s ≡ (ok, some (f * page_size), take_frame frames f s)))
  unfolding frame_allocate
  frame_allocate_cases wanted =
      elim (Option-cases (find_free frames frames 0 s.next_search s.eligible s.used)) [
        | inl e ↦ inl (rw e (ground arith), rw e (ground arith))
        | inr (f, e) ↦
            let (l, free) =
              find_free_sound frames s.next_search s.eligible s.used valid.search_start frames 0
                (omega arith) e in
            elim (Bool-cases (wanted && s.initialized && not (s.stats.free_frames == 0))) [
              | inl go ↦ inr (f, l, free, ground arith, rw e (ground arith))
              | inr stop ↦ inl (rw e (ground arith), rw e (ground arith))
            ]
      ]

  -- For fewer than 2^52 frames, a valid and initialised allocator with a free frame hands one out:
  -- the address is that of a frame below the limit that was free and is taken in the state after.
  pub frame_allocate-total :
      s.initialized ≡ true
      → 0 < count_below frames (is_free s)
      → (f : ℕ) × (f < frames)
        × (is_free s f ≡ true)
        × (frame_allocate frames true s ≡ (ok, some (f * page_size), take_frame frames f s))
        × (is_taken (take_frame frames f s) f ≡ true)
  unfolding frame_allocate take_frame
  frame_allocate-total on some_free =
      elim (Option-cases (find_free frames frames 0 s.next_search s.eligible s.used)) [
        | inl e ↦
            let (k, l, free) = count_below-find (is_free s) frames some_free in
            absurd (
              false≢true (
                sym (
                  find_free_complete frames s.next_search s.eligible s.used valid.search_start k l
                    e)
                ∙ free))
        | inr (f, e) ↦
            let (l, free) =
              find_free_sound frames s.next_search s.eligible s.used valid.search_start frames 0
                (omega arith) e in
            (
              f,
              l,
              free,
              rw e (ground (arith, valid.free_count)),
              ground (arith, used-take frames s valid f l f),
            )
      ]

  -- For fewer than 2^52 frames, frame_allocate keeps a valid allocator valid, whatever it answers.
  pub frame_allocate-IsValid : (wanted : Bool) → IsValid frames (frame_allocate frames wanted s).2
  frame_allocate-IsValid wanted = elim (frame_allocate_cases wanted) [
    | inl (_, same) ↦ rw same valid
    | inr (f, l, free, _, e) ↦ rw e (take_frame-IsValid frames s valid f l small free)
  ]

  -- frame_release changes nothing, or takes back a taken frame that no contiguous allocation covers.
  frame_release_cases :
      (address : ℕ)
      → let f = address / page_size in
        (((frame_release frames address s).0 ≢ ok) × ((frame_release frames address s).1 ≡ s))
        ⊎ ((f < frames)
            × (is_taken s f ≡ true)
            × (frame_in_contiguous_allocation s.records f ≡ false)
            × (frame_release frames address s ≡ (ok, return_frame frames f s)))
  unfolding frame_release
  frame_release_cases address = ground arith

  -- For fewer than 2^52 frames, frame_release keeps a valid allocator valid, whatever address it
  -- is given.
  pub frame_release-IsValid : (address : ℕ) → IsValid frames (frame_release frames address s).1
  frame_release-IsValid address = elim (frame_release_cases address) [
    | inl (_, same) ↦ rw same valid
    | inr (l, taken, loose, e) ↦
        rw e (return_frame-IsValid frames s valid (address / page_size) l small taken loose)
  ]

  -- Taking a frame and giving it back restores every bit and both counts.
  return_take :
      (f : ℕ)
      → f < frames
      → is_free s f ≡ true
      → let t = return_frame frames f (take_frame frames f s) in
        ((g : ℕ) → bitmap_get t.used g ≡ bitmap_get s.used g)
        × (t.eligible ≡ s.eligible)
        × (t.stats ≡ s.stats)
  unfolding return_frame take_frame
  return_take f l free = (
    (λ g. ground (
      arith,
      used-return frames (take_frame frames f s) (take_frame-IsValid frames s valid f l small free)
          f l g,
      used-take frames s valid f l g,
    )),
    refl,
    ground (
      arith,
      valid.free_count,
      valid.allocated_count,
      count_below-le (is_free s) frames,
      count_below-le (is_taken s) frames,
      counts-take frames s valid f l free,
    ),
  )

  release_taken :
      (f : ℕ)
      → f < frames
      → is_free s f ≡ true
      → s.initialized ≡ true
      → frame_release frames (f * page_size) (take_frame frames f s)
        ≡ (ok, return_frame frames f (take_frame frames f s))
  unfolding frame_release take_frame
  release_taken f l free on =
      let back : f * page_size / page_size ≡ f = omega arith in
      rw back (ground (arith, used-take frames s valid f l f, valid.owned f))

  -- For fewer than 2^52 frames, what frame_allocate hands out of a valid allocator, frame_release
  -- takes back at once: it answers ok, and every bit and every count is as before the two calls.
  pub frame_release-allocate :
      {address : ℕ} {t : FrameState}
      → frame_allocate frames true s ≡ (ok, some address, t)
      → (u : FrameState) × (frame_release frames address t ≡ (ok, u))
        × ((g : ℕ) → bitmap_get u.used g ≡ bitmap_get s.used g)
        × (u.eligible ≡ s.eligible)
        × (u.stats ≡ s.stats)
  frame_release-allocate {address} {t} e = elim (frame_allocate_cases true) [
    | inl (refused, _) ↦ absurd (refused (ap (λ r. r.0) e))
    | inr (f, l, free, on, e') ↦
        let (a, st) = same_result (sym e' ∙ e) in
        let (bits, same, counts) = return_take f l free in
        rw (← a, ← st)
          (
            return_frame frames f (take_frame frames f s),
            release_taken f l free on,
            bits,
            same,
            counts,
          )
  ]

  -- For fewer than 2^52 frames and a valid allocator, releasing an address again right after a
  -- release of it that answered ok is refused as a double free and changes nothing.
  pub frame_release_twice :
      (address : ℕ) {t : FrameState}
      → frame_release frames address s ≡ (ok, t)
      → frame_release frames address t ≡ (double_free, t)
  unfolding frame_release return_frame
  frame_release_twice address {t} e = elim (frame_release_cases address) [
    | inl (refused, _) ↦ absurd (refused (ap (λ r. r.0) e))
    | inr (l, taken, _, e') ↦ rw (← ap (λ r. r.1) (sym e' ∙ e)) (
        ground
          (arith, e', used-return frames s valid (address / page_size) l (address / page_size)))
  ]
