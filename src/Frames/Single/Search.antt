-- ===== src/Frames/Single/Search.antt =====
-- The scan of frame_allocate finds a free frame exactly when there is one.
use native.Mathlib.Decide.{ℕ_discrete}
use pyrenis.Base.{
  ℕ, zero, suc, ◌+◌, ◌-◌, ◌≤◌, ◌<◌, ◌≡◌, inl, inr, true, false, not, ◌&&◌, none, some, arith, ltb,
  Bool-cases,
}
use pyrenis.Frames.Bitmap.{Bitmap, bitmap_get}
use pyrenis.Frames.Single.{probe, find_free}

module _ (frames start : ℕ) (eligible used : Bitmap) (in_range : start < frames) where
  -- What the scan reports is inside, eligible and unused.
  pub find_free_sound :
      (rounds step : ℕ) {f : ℕ}
      → step + rounds ≤ frames
      → find_free frames rounds step start eligible used ≡ some f
      → (f < frames) × ((bitmap_get eligible f && not (bitmap_get used f)) ≡ true)
  unfolding find_free
  find_free_sound zero step l e = absurd (ground arith)
  find_free_sound (suc rounds) step {f} l e =
      ground (arith, find_free_sound rounds (step + 1) {f = f})

  -- If it reports nothing, every frame that it probed is taken or reserved.
  probes_fail :
      (rounds step j : ℕ)
      → step ≤ j
      → j < step + rounds
      → find_free frames rounds step start eligible used ≡ none
      → (bitmap_get eligible (probe frames start j) && not (bitmap_get used (probe frames start j)))
        ≡ false
  unfolding find_free
  probes_fail zero step j l h e = absurd (omega arith)
  probes_fail (suc rounds) step j l h e = elim (ℕ_discrete step j) [
    | yes now ↦ rw (← now) (ground arith)
    | no later ↦ probes_fail rounds (step + 1) j (omega arith) (omega arith) (ground arith)
  ]

  -- A whole round probes every frame.
  pub find_free_complete :
      (f : ℕ)
      → f < frames
      → find_free frames frames 0 start eligible used ≡ none
      → (bitmap_get eligible f && not (bitmap_get used f)) ≡ false
  find_free_complete f h e = elim (Bool-cases (ltb f start)) [
    | inl below ↦ reached (f + frames - start) (ground arith) (ground arith)
    | inr above ↦ reached (f - start) (ground arith) (ground arith)
  ]
    where
      reached :
          (j : ℕ)
          → probe frames start j ≡ f
          → j < 0 + frames
          → (bitmap_get eligible f && not (bitmap_get used f)) ≡ false
      reached j at l = rw (← at) (probes_fail frames 0 j (omega arith) l e)
