-- ===== src/Frames/Range/Exact.antt =====
-- Which frames the two bounds functions name.
use pyrenis.Base.{
  ℕ, ◌+◌, ◌*◌, ◌^◌, ◌≤◌, ◌<◌, ◌≡◌, refl, Bool, false, not, ◌&&◌, arith, ltb, leb, ◌==◌,
}
use pyrenis.Frames.State.{page_size}
use pyrenis.Frames.Invariant.{IsSmall}
use pyrenis.Frames.Range.{
  Bounds, refused, span, checked_range_end, available_frame_bounds, covering_frame_bounds,
}

-- Frame `f` is in the run.
abbrev pub in_span : Bounds → ℕ → Bool
in_span (refused st) f = false
in_span (span first past) f = leb first f && ltb f past

-- All of frame `f` lies in the range of bytes, and below the limit.
abbrev pub lies_inside : ℕ → ℕ → ℕ → ℕ → Bool
lies_inside frames base length f =
    ltb f frames && (leb base (f * page_size) && leb ((f + 1) * page_size) (base + length))

-- Frame `f`, below the limit, shares a byte with the range.
abbrev pub touches : ℕ → ℕ → ℕ → ℕ → Bool
touches frames base length f =
    ltb f frames
    && (not (length == 0)
        && (ltb base ((f + 1) * page_size) && ltb (f * page_size) (base + length)))

-- The run ends below the limit.
abbrev pub Fits : ℕ → Bounds → Type 0
Fits frames (refused st) = Unit {0}
Fits frames (span first past) = (first ≤ past) × (past ≤ frames)

Fits-of :
    (frames : ℕ) (b : Bounds)
    → ((first past : ℕ) → b ≡ span first past → (first ≤ past) × (past ≤ frames))
    → Fits frames b
Fits-of frames (refused st) h = tt
Fits-of frames (span first past) h = h first past refl

module _ (frames base length : ℕ) where
  pub available-Fits : Fits frames (available_frame_bounds frames base length)
  unfolding available_frame_bounds checked_range_end
  available-Fits = Fits-of frames _ (λ first past e. ground arith)

  pub covering-Fits : Fits frames (covering_frame_bounds frames base length)
  unfolding covering_frame_bounds checked_range_end
  covering-Fits = Fits-of frames _ (λ first past e. ground arith)

module _ (frames : ℕ) (small : IsSmall frames) (base length : ℕ)
    (word : base + length < 2 ^ 64) where
  -- For fewer than 2^52 frames and a range that ends below 2^64, the frames between the bounds of
  -- available_frame_bounds are exactly the managed ones that lie whole inside the range.
  pub available_frame_bounds_exact :
      (f : ℕ)
      → in_span (available_frame_bounds frames base length) f ≡ lies_inside frames base length f
  unfolding available_frame_bounds checked_range_end
  available_frame_bounds_exact f = ground arith

  -- For fewer than 2^52 frames and a range that ends below 2^64, the frames between the bounds of
  -- covering_frame_bounds are exactly the managed ones that share a byte with the range.
  pub covering_frame_bounds_exact :
      (f : ℕ) → in_span (covering_frame_bounds frames base length) f ≡ touches frames base length f
  unfolding covering_frame_bounds checked_range_end
  covering_frame_bounds_exact f = ground arith
