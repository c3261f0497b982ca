-- ===== src/Frames/Range/Marks.antt =====
-- What the marking loops write, and what recompute_stats counts.
use pyrenis.Base.{
  ℕ, zero, suc, ◌+◌, ◌-◌, ◌^◌, ◌≤◌, ◌<◌, ◌≡◌, refl, Bool, true, false, not, ◌&&◌, arith, ltb, leb,
  if◌then◌else◌,
}
use pyrenis.Base.Count.{count_below, count_below-le}
use pyrenis.Frames.Bitmap.{
  Bitmap, IsBitmap, bitmap_get, bitmap_set, bitmap_get-set, bitmap_set-IsBitmap,
}
use pyrenis.Frames.State.{Stats}
use pyrenis.Frames.Invariant.{IsSmall}
use pyrenis.Frames.Range.{
  mark_frames, mark_available_frames, mark_reserved_frames, account, recompute_from,
  recompute_stats,
}

-- Two bitmaps after the loop: the run holds the new values, the rest is as before.
pub record Marked (frames first past : ℕ) (e u : Bool) (before after : Bitmap × Bitmap)
    : Type 0 where
  pub eligible_bits : IsBitmap frames after.0
  pub used_bits : IsBitmap frames after.1
  pub eligible_after :
      (g : ℕ)
      → bitmap_get after.0 g ≡ (if leb first g && ltb g past then e else bitmap_get before.0 g)
  pub used_after :
      (g : ℕ)
      → bitmap_get after.1 g ≡ (if leb first g && ltb g past then u else bitmap_get before.1 g)

pub mark_frames-Marked :
    (frames rounds first past : ℕ) (e u : Bool) (eligible used : Bitmap)
    → first + rounds ≡ past
    → past ≤ frames
    → IsBitmap frames eligible
    → IsBitmap frames used
    → Marked frames first past e u (eligible, used) (mark_frames rounds first e u (eligible, used))
unfolding mark_frames
mark_frames-Marked frames zero first past e u eligible used end l ve vu = record {
  eligible_bits = ve;
  used_bits = vu;
  eligible_after = λ g. ground arith;
  used_after = λ g. ground arith;
}
mark_frames-Marked frames (suc rounds) first past e u eligible used end l ve vu =
    let rest =
      mark_frames-Marked frames rounds (first + 1) past e u (bitmap_set eligible first e)
        (bitmap_set used first u) (omega arith) l (bitmap_set-IsBitmap frames eligible first e ve)
        (bitmap_set-IsBitmap frames used first u vu) in
    record {
      eligible_bits = rest.eligible_bits;
      used_bits = rest.used_bits;
      eligible_after = λ g.
          ground (
            arith,
            rest.eligible_after g,
            bitmap_get-set frames eligible first g e ve (omega arith),
          );
      used_after = λ g.
          ground (arith, rest.used_after g, bitmap_get-set frames used first g u vu (omega arith));
    }

module _ (frames first past : ℕ) (eligible used : Bitmap) (order : first ≤ past)
    (inside : past ≤ frames) (eligible_bits : IsBitmap frames eligible)
    (used_bits : IsBitmap frames used) where
  pub mark_available_frames-Marked :
      Marked frames first past true false
        (eligible, used)
        (mark_available_frames first past (eligible, used))
  unfolding mark_available_frames
  mark_available_frames-Marked =
      mark_frames-Marked frames (past - first) first past true false eligible used (omega arith)
        inside eligible_bits used_bits

  pub mark_reserved_frames-Marked :
      Marked frames first past false true
        (eligible, used)
        (mark_reserved_frames first past (eligible, used))
  unfolding mark_reserved_frames
  mark_reserved_frames-Marked =
      mark_frames-Marked frames (past - first) first past false true eligible used (omega arith)
        inside eligible_bits used_bits

module _ (eligible used : Bitmap) where
  -- The counts of the frames below `n`.
  pub record Counts (n : ℕ) (s : Stats) : Type 0 where
    pub free : s.free_frames ≡ count_below n (λ f. bitmap_get eligible f && not (bitmap_get used f))
    pub allocated :
        s.allocated_frames ≡ count_below n (λ f. bitmap_get eligible f && bitmap_get used f)
    pub allocatable : s.allocatable_frames ≡ count_below n (bitmap_get eligible)
    pub all : s.allocatable_frames + s.reserved_frames ≡ n

  account-Counts :
      (f : ℕ) (s : Stats)
      → f < 2 ^ 52
      → Counts f s
      → Counts (suc f) (account (bitmap_get eligible f) (bitmap_get used f) f s)
  unfolding account count_below
  account-Counts f s small c = record {
    free =
        ground
          (arith, c.free, count_below-le (λ g. bitmap_get eligible g && not (bitmap_get used g)) f);
    allocated =
        ground
          (arith, c.allocated, count_below-le (λ g. bitmap_get eligible g && bitmap_get used g) f);
    allocatable = ground (arith, c.allocatable, count_below-le (bitmap_get eligible) f);
    all = ground (arith, c.all);
  }

  recompute_from-Counts :
      (rounds f n : ℕ) (s : Stats)
      → f + rounds ≡ n
      → n < 2 ^ 52
      → Counts f s
      → Counts n (recompute_from rounds f eligible used s)
  unfolding recompute_from
  recompute_from-Counts zero f n s end small c = let e : f ≡ n = omega arith in rw (← e) c
  recompute_from-Counts (suc rounds) f n s end small c =
      recompute_from-Counts rounds (f + 1) n
        (account (bitmap_get eligible f) (bitmap_get used f) f s) (omega arith) small
        (let e : f + 1 ≡ suc f = omega arith in rw e (account-Counts f s (omega arith) c))

  -- For fewer than 2^52 frames, recompute_stats counts each frame once: as free, allocated or
  -- reserved, as its two bits say.
  pub recompute_stats-Counts :
      (frames : ℕ) → IsSmall frames → Counts frames (recompute_stats frames eligible used)
  unfolding recompute_stats count_below
  recompute_stats-Counts frames small =
      recompute_from-Counts frames 0 frames _ (omega arith) small
        (record { free = refl; allocated = refl; allocatable = refl; all = refl })
