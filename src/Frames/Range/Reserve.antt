-- ===== src/Frames/Range/Reserve.antt =====
-- frame_reserve_range withdraws exactly the frames that the range touches, or nothing.
use pyrenis.Base.{
  ℕ, zero, suc, ◌+◌, ◌-◌, ◌^◌, ◌≤◌, ◌<◌, ◌≡◌, ◌≢◌, refl, sym, ap, ◌∙◌, ◌⊎◌, inl, inr, Bool, true,
  false, not, ◌&&◌, arith, ltb, leb, Bool-cases, if_rule,
}
use native.Mathlib.Decide.{ℕ_discrete}
use pyrenis.Frames.Bitmap.{bitmap_get}
use pyrenis.Frames.State.{Status, ok, FrameState, not_initialized}
use pyrenis.Frames.Invariant.{is_taken, IsValid, IsSmall}
use pyrenis.Frames.Range.{
  Bounds, refused, span, covering_frame_bounds, checked_range_end, any_frame, withdraw,
  reserve_bounds, frame_reserve_range,
}
use pyrenis.Frames.Range.Exact.{in_span, touches, covering-Fits, covering_frame_bounds_exact}
use pyrenis.Frames.Range.Marks.{Marked, mark_reserved_frames-Marked, recompute_stats-Counts}

pub any_frame-false :
    (test : ℕ → Bool) (rounds first g : ℕ)
    → any_frame test rounds first ≡ false
    → first ≤ g
    → g < first + rounds
    → test g ≡ false
unfolding any_frame
any_frame-false test zero first g e l h = absurd (omega arith)
any_frame-false test (suc rounds) first g e l h = elim (ℕ_discrete first g) [
  | yes here ↦ rw (← here) (ground arith)
  | no later ↦ any_frame-false test rounds (first + 1) g (ground arith) (omega arith) (omega arith)
]

module _ (frames : ℕ) (small : IsSmall frames) (s : FrameState) (valid : IsValid frames s) where
  module _ (first past : ℕ) (order : first ≤ past) (inside : past ≤ frames) where
    pub withdraw-Marked :
        Marked frames first past false true
          (s.eligible, s.used)
          ((withdraw frames first past s).eligible, (withdraw frames first past s).used)
    unfolding withdraw
    withdraw-Marked =
        mark_reserved_frames-Marked frames first past s.eligible s.used order inside
          valid.eligible_bits valid.used_bits

    -- Withdrawing a run with no taken frame keeps the allocator valid.
    pub withdraw-IsValid :
        any_frame (is_taken s) (past - first) first ≡ false
        → IsValid frames (withdraw frames first past s)
    unfolding withdraw
    withdraw-IsValid none_taken =
        let m = withdraw-Marked in
        let c =
          recompute_stats-Counts (withdraw frames first past s).eligible
            (withdraw frames first past s).used frames small in
        record {
          eligible_bits = m.eligible_bits;
          used_bits = m.used_bits;
          free_count = c.free;
          allocated_count = c.allocated;
          table = valid.table;
          search_start = valid.search_start;
          owned = λ f. ground (
            arith,
            valid.owned f,
            m.eligible_after f,
            m.used_after f,
            any_frame-false (is_taken s) (past - first) first f none_taken,
          );
        }

  covering_inside :
      (base length first past : ℕ)
      → covering_frame_bounds frames base length ≡ span first past
      → (first ≤ past) × (past ≤ frames)
  covering_inside base length first past e = rw e at (covering-Fits frames base length)

  Reserved : Bounds → Status × FrameState → Type 0
  Reserved b r =
      ((r.0 ≢ ok) × (r.1 ≡ s))
      ⊎ ((first : ℕ) × (past : ℕ) × (b ≡ span first past)
          × (any_frame (is_taken s) (past - first) first ≡ false)
          × (r ≡ (ok, withdraw frames first past s)))

  reserve_bounds-Reserved : (b : Bounds) → (b ≢ refused ok) → Reserved b (reserve_bounds frames s b)
  unfolding Reserved reserve_bounds
  reserve_bounds-Reserved (refused st) n = inl ((λ e. n (ap refused e)), refl)
  reserve_bounds-Reserved (span first past) n =
      elim (Bool-cases (any_frame (is_taken s) (past - first) first)) [
        | inl e ↦ rw e (inl (ground arith, refl))
        | inr e ↦ rw e (inr (first, past, refl, e, refl))
      ]

  covering_refusal : (base length : ℕ) → covering_frame_bounds frames base length ≢ refused ok
  unfolding covering_frame_bounds checked_range_end
  covering_refusal base length e = ground arith

  frame_reserve_range_cases :
      (base length : ℕ)
      → Reserved
          (covering_frame_bounds frames base length)
          (frame_reserve_range frames base length s)
  unfolding Reserved frame_reserve_range
  frame_reserve_range_cases base length =
      if_rule (Reserved (covering_frame_bounds frames base length)) (not s.initialized)
        {x = (not_initialized, s)} (λ _. inl (ground arith, refl))
        λ _.
          reserve_bounds-Reserved (covering_frame_bounds frames base length)
            (covering_refusal base length)

  -- For fewer than 2^52 frames, frame_reserve_range keeps a valid allocator valid, whatever range
  -- it is given and whatever it answers.
  pub frame_reserve_range-IsValid :
      (base length : ℕ) → IsValid frames (frame_reserve_range frames base length s).1
  unfolding Reserved
  frame_reserve_range-IsValid base length = elim (frame_reserve_range_cases base length) [
    | inl (_, same) ↦ rw same valid
    | inr (first, past, b, none_taken, e) ↦
        let (order, inside) = covering_inside base length first past b in
        rw e (withdraw-IsValid first past order inside none_taken)
  ]

  -- For fewer than 2^52 frames, a valid allocator and a range that ends below 2^64, a reservation
  -- that answers ok withdraws exactly the frames that share a byte with the range, and none of
  -- those was handed out.
  pub frame_reserve_range_exact :
      (base length : ℕ) {t : FrameState}
      → base + length < 2 ^ 64
      → frame_reserve_range frames base length s ≡ (ok, t)
      → (g : ℕ)
      → (bitmap_get t.eligible g ≡ (bitmap_get s.eligible g && not (touches frames base length g)))
        × ((is_taken s g && touches frames base length g) ≡ false)
  unfolding Reserved
  frame_reserve_range_exact base length {t} word e g =
      elim (frame_reserve_range_cases base length) [
        | inl (no_ok, _) ↦ absurd (no_ok (ap (λ r. r.0) e))
        | inr (first, past, b, none_taken, e') ↦
            let (order, inside) = covering_inside base length first past b in
            let run : (leb first g && ltb g past) ≡ touches frames base length g =
              sym (ap (λ c. in_span c g) b)
              ∙ covering_frame_bounds_exact frames small base length word g in
            rw (← ap (λ r. r.1) (sym e' ∙ e), ← run)
              (
                ground (arith, (withdraw-Marked first past order inside).eligible_after g),
                ground (arith, any_frame-false (is_taken s) (past - first) first g none_taken),
              )
      ]
