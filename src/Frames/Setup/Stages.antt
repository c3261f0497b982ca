-- ===== src/Frames/Setup/Stages.antt =====
-- Which frames are eligible after each stage of the initialisation.
use pyrenis.Base.{
  ℕ, ◌+◌, ◌^◌, ◌<◌, ◌≡◌, ◌≢◌, refl, ap, ◌∙◌, inl, inr, Bool, true, false, not, ◌&&◌, ◌||◌, Option,
  none, some, List, [], ◌∷◌, arith, Bool-cases,
}
use pyrenis.Frames.Bitmap.{IsBitmap, bitmap_get}
use pyrenis.Frames.State.{Status, ok, range_outside_limit}
use pyrenis.Frames.Invariant.{IsSmall}
use pyrenis.Frames.Range.{
  Bounds, refused, span, checked_range_end, available_frame_bounds, covering_frame_bounds,
}
use pyrenis.Frames.Range.Exact.{
  in_span, lies_inside, touches, Fits, available-Fits, covering-Fits, available_frame_bounds_exact,
  covering_frame_bounds_exact,
}
use pyrenis.Frames.Range.Marks.{mark_available_frames-Marked, mark_reserved_frames-Marked}
use pyrenis.Frames.Setup.{
  Region, Maps, is_available, mark_available, mark_reserved, pass_over, apply_region, apply_pass,
  and_then,
}

-- The maps at a stage: `spec` says which frames are eligible, and none of those is used.
pub record IsStage (frames : ℕ) (spec : ℕ → Bool) (maps : Maps) : Type 0 where
  pub eligible_bits : IsBitmap frames maps.0
  pub used_bits : IsBitmap frames maps.1
  pub eligible_is : (g : ℕ) → bitmap_get maps.0 g ≡ spec g
  pub idle : (g : ℕ) → (bitmap_get maps.0 g && bitmap_get maps.1 g) ≡ false

module _ (frames : ℕ) where
  -- The maps are as they were, and so is the specification where it agrees.
  pub kept-IsStage :
      {spec spec' : ℕ → Bool} {maps maps' : Maps}
      → maps ≡ maps'
      → ((g : ℕ) → spec g ≡ spec' g)
      → IsStage frames spec maps
      → IsStage frames spec' maps'
  kept-IsStage same agree v = rw (← same) (record {
    eligible_bits = v.eligible_bits;
    used_bits = v.used_bits;
    eligible_is = λ g. v.eligible_is g ∙ agree g;
    idle = v.idle;
  })

  mark_available-IsStage :
      (spec : ℕ → Bool) (b : Bounds) (maps maps' : Maps)
      → Fits frames b
      → IsStage frames spec maps
      → mark_available b maps ≡ (ok, maps')
      → IsStage frames (λ g. spec g || in_span b g) maps'
  unfolding mark_available
  mark_available-IsStage spec (refused st) maps maps' fit v e =
      kept-IsStage (ap (λ r. r.1) e) (λ g. ground arith) v
  mark_available-IsStage spec (span first past) (el, us) maps' fit v e =
      let m =
        mark_available_frames-Marked frames first past el us fit.0 fit.1 v.eligible_bits
          v.used_bits in
      rw (← ap (λ r. r.1) e) (record {
        eligible_bits = m.eligible_bits;
        used_bits = m.used_bits;
        eligible_is = λ g. ground (arith, v.eligible_is g, m.eligible_after g);
        idle = λ g. ground (arith, v.idle g, m.eligible_after g, m.used_after g);
      })

  pub mark_reserved-IsStage :
      (spec : ℕ → Bool) (b : Bounds) (maps maps' : Maps)
      → Fits frames b
      → IsStage frames spec maps
      → mark_reserved b maps ≡ (ok, maps')
      → IsStage frames (λ g. spec g && not (in_span b g)) maps'
  unfolding mark_reserved
  mark_reserved-IsStage spec (refused st) maps maps' fit v e =
      kept-IsStage (ap (λ r. r.1) e) (λ g. ground arith) v
  mark_reserved-IsStage spec (span first past) (el, us) maps' fit v e =
      let m =
        mark_reserved_frames-Marked frames first past el us fit.0 fit.1 v.eligible_bits
          v.used_bits in
      rw (← ap (λ r. r.1) e) (record {
        eligible_bits = m.eligible_bits;
        used_bits = m.used_bits;
        eligible_is = λ g. ground (arith, v.eligible_is g, m.eligible_after g);
        idle = λ g. ground (arith, v.idle g, m.eligible_after g, m.used_after g);
      })

  pass_over-IsStage :
      (spec : ℕ → Bool) (b : Bounds) (maps maps' : Maps)
      → Fits frames b
      → IsStage frames spec maps
      → pass_over b maps ≡ (ok, maps')
      → IsStage frames (λ g. spec g && not (in_span b g)) maps'
  unfolding pass_over
  pass_over-IsStage spec (refused range_outside_limit) maps maps' fit v e =
      kept-IsStage (ap (λ r. r.1) e) (λ g. ground arith) v
  pass_over-IsStage spec b maps maps' fit v e = mark_reserved-IsStage spec b maps maps' fit v e

-- A frame that lies whole in an available region of the map, and one that another region touches.
abbrev pub in_available : ℕ → List (Option Region) → ℕ → Bool
in_available frames [] g = false
in_available frames (none ∷ rs) g = in_available frames rs g
in_available frames (some r ∷ rs) g =
    (is_available r && lies_inside frames r.base_address r.length g) || in_available frames rs g

abbrev pub in_reserved : ℕ → List (Option Region) → ℕ → Bool
in_reserved frames [] g = false
in_reserved frames (none ∷ rs) g = in_reserved frames rs g
in_reserved frames (some r ∷ rs) g =
    (not (is_available r) && touches frames r.base_address r.length g) || in_reserved frames rs g

-- Bases and lengths are 64-bit words; their sums need not be.
abbrev pub AreWords : List (Option Region) → Type 0
AreWords [] = Unit {0}
AreWords (none ∷ rs) = AreWords rs
AreWords (some r ∷ rs) = (r.base_address < 2 ^ 64) × (r.length < 2 ^ 64) × AreWords rs

-- A range that wraps is refused, so a step that answers ok had one that does not.
module _ (frames base length : ℕ) (word : base < 2 ^ 64) (maps maps' : Maps) where
  mark_available-no_wrap :
      mark_available (available_frame_bounds frames base length) maps ≡ (ok, maps')
      → base + length < 2 ^ 64
  unfolding mark_available available_frame_bounds checked_range_end
  mark_available-no_wrap e = ground (arith, word, e)

  pub mark_reserved-no_wrap :
      mark_reserved (covering_frame_bounds frames base length) maps ≡ (ok, maps')
      → base + length < 2 ^ 64
  unfolding mark_reserved covering_frame_bounds checked_range_end
  mark_reserved-no_wrap e = ground (arith, word, e)

  pass_over-no_wrap :
      pass_over (covering_frame_bounds frames base length) maps ≡ (ok, maps')
      → base + length < 2 ^ 64
  unfolding pass_over mark_reserved covering_frame_bounds checked_range_end
  pass_over-no_wrap e = ground (arith, word, e)

-- A step that runs after another succeeds only if both do.
pub and_then-ok :
    (r : Status × Maps) (step : Maps → Status × Maps) (out : Maps)
    → and_then r step ≡ (ok, out)
    → (mid : Maps) × (r ≡ (ok, mid)) × (step mid ≡ (ok, out))
and_then-ok (ok, maps) step out e = (maps, refl, e)
and_then-ok (st, maps) step out e = absurd (ground arith)

module _ (frames : ℕ) (small : IsSmall frames) where
  first_region-IsStage :
      (spec : ℕ → Bool) (r : Region) (maps maps' : Maps)
      → r.base_address < 2 ^ 64
      → IsStage frames spec maps
      → apply_region frames true (some r) maps ≡ (ok, maps')
      → IsStage frames
          (λ g. spec g || is_available r && lies_inside frames r.base_address r.length g)
          maps'
  unfolding apply_region
  first_region-IsStage spec r maps maps' w v e = elim (Bool-cases (is_available r)) [
    | inl yes_available ↦
        let whole =
          mark_available-no_wrap frames r.base_address r.length w maps maps'
            (rw yes_available at e) in
        kept-IsStage frames refl
          (λ g. ground (
            arith,
            yes_available,
            available_frame_bounds_exact frames small r.base_address r.length whole g,
          ))
          (mark_available-IsStage frames spec
            (available_frame_bounds frames r.base_address r.length) maps maps'
            (available-Fits frames r.base_address r.length) v (rw yes_available at e))
    | inr not_available ↦
        kept-IsStage frames (ap (λ x. x.1) (rw not_available at e))
          (λ g. ground (arith, not_available)) v
  ]

  second_region-IsStage :
      (spec : ℕ → Bool) (r : Region) (maps maps' : Maps)
      → r.base_address < 2 ^ 64
      → IsStage frames spec maps
      → apply_region frames false (some r) maps ≡ (ok, maps')
      → IsStage frames
          (λ g. spec g && not (not (is_available r) && touches frames r.base_address r.length g))
          maps'
  unfolding apply_region
  second_region-IsStage spec r maps maps' w v e = elim (Bool-cases (is_available r)) [
    | inl yes_available ↦
        kept-IsStage frames (ap (λ x. x.1) (rw yes_available at e))
          (λ g. ground (arith, yes_available)) v
    | inr not_available ↦
        let whole =
          pass_over-no_wrap frames r.base_address r.length w maps maps' (rw not_available at e) in
        kept-IsStage frames refl
          (λ g. ground (
            arith,
            not_available,
            covering_frame_bounds_exact frames small r.base_address r.length whole g,
          ))
          (pass_over-IsStage frames spec (covering_frame_bounds frames r.base_address r.length) maps
            maps' (covering-Fits frames r.base_address r.length) v (rw not_available at e))
  ]

  no_region :
      (first_pass : Bool) (rs : List (Option Region)) (maps maps' : Maps)
      → apply_pass frames first_pass (none ∷ rs) maps ≢ (ok, maps')
  unfolding apply_pass apply_region
  no_region first_pass rs maps maps' e = ground arith

  -- After the first pass the frames of the available regions are added.
  pub first_pass-IsStage :
      (rs : List (Option Region)) (spec : ℕ → Bool) (maps maps' : Maps)
      → AreWords rs
      → IsStage frames spec maps
      → apply_pass frames true rs maps ≡ (ok, maps')
      → IsStage frames (λ g. spec g || in_available frames rs g) maps'
  unfolding apply_pass
  first_pass-IsStage [] spec maps maps' w v e =
      kept-IsStage frames (ap (λ r. r.1) e) (λ g. ground arith) v
  first_pass-IsStage (none ∷ rs) spec maps maps' w v e = absurd (no_region true rs maps maps' e)
  first_pass-IsStage (some r ∷ rs) spec maps maps' w v e =
      let (mid, here, later) =
        and_then-ok (apply_region frames true (some r) maps) (apply_pass frames true rs) maps' e in
      kept-IsStage frames refl (λ g. ground arith)
        (first_pass-IsStage rs
          (λ g. spec g || is_available r && lies_inside frames r.base_address r.length g) mid maps'
          w.2 (first_region-IsStage spec r maps mid w.0 v here) later)

  -- After the second pass the frames that a reserved region touches are gone.
  pub second_pass-IsStage :
      (rs : List (Option Region)) (spec : ℕ → Bool) (maps maps' : Maps)
      → AreWords rs
      → IsStage frames spec maps
      → apply_pass frames false rs maps ≡ (ok, maps')
      → IsStage frames (λ g. spec g && not (in_reserved frames rs g)) maps'
  unfolding apply_pass
  second_pass-IsStage [] spec maps maps' w v e =
      kept-IsStage frames (ap (λ r. r.1) e) (λ g. ground arith) v
  second_pass-IsStage (none ∷ rs) spec maps maps' w v e = absurd (no_region false rs maps maps' e)
  second_pass-IsStage (some r ∷ rs) spec maps maps' w v e =
      let (mid, here, later) =
        and_then-ok (apply_region frames false (some r) maps) (apply_pass frames false rs) maps'
          e in
      kept-IsStage frames refl (λ g. ground arith)
        (second_pass-IsStage rs
          (λ g. spec g && not (not (is_available r) && touches frames r.base_address r.length g))
          mid maps' w.2 (second_region-IsStage spec r maps mid w.0 v here) later)
