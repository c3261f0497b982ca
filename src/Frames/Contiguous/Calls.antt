-- ===== src/Frames/Contiguous/Calls.antt =====
-- frame_allocate_contiguous and frame_release_contiguous as their callers see them.
use Prim.Native.Nat.{bit_and}
use mathlib.Core.Bool.{false≢true}
use pyrenis.Base.{
  ℕ, ◌+◌, ◌-◌, ◌*◌, ◌%◌, ◌^◌, ◌≤◌, ◌<◌, ◌≡◌, ◌≢◌, refl, sym, ap, ◌∙◌, inl, inr, Bool, true, false,
  not, ◌&&◌, ◌||◌, none, some, arith, ◌==◌, if_rule, Option-cases, length, get_or,
}
use pyrenis.Base.Words.{mul64}
use pyrenis.Base.Bits.{mask_mod}
use pyrenis.Frames.Bitmap.{bitmap_get}
use pyrenis.Frames.Records.{no_record}
use pyrenis.Frames.State.{Status, ok, null_argument, not_initialized, FrameState, page_size}
use pyrenis.Frames.Invariant.{is_free, implies, IsValid, IsSmall}
use pyrenis.Frames.Contiguous.{
  Request, Allocation, cleared, power_of_two, find_record, find_run, maximum_past_frame,
  check_request, commit_run, frame_allocate_contiguous,
}
use pyrenis.Frames.Contiguous.Runs.{
  all_frames-true, find_record_sound, find_run_sound, find_run_complete, is_run,
}
use pyrenis.Frames.Contiguous.Commit.{in_run, used-commit, commit_run-IsValid}

module _ (frames : ℕ) (q : Request) (word : q.maximum_physical_address < 2 ^ 64)
    (count_word : q.page_count < 2 ^ 64) (small : IsSmall frames) where
  -- What an accepted request guarantees.
  check_request-none :
      check_request frames q ≡ none
      → (0 < q.page_count)
        × (q.page_count ≤ maximum_past_frame frames q)
        × (power_of_two q.alignment ≡ true)
  unfolding check_request
  check_request-none e = ground arith

  maximum_past_frame_lem :
      (maximum_past_frame frames q ≤ frames)
      × (maximum_past_frame frames q * page_size ≤ q.maximum_physical_address + 1)
  unfolding maximum_past_frame
  maximum_past_frame_lem = ground arith

power_of_two_mask : (a x : ℕ) → power_of_two a ≡ true → (bit_and x (a - 1) == 0) ≡ true → x % a ≡ 0
unfolding power_of_two
power_of_two_mask a x p m = ground (arith, mask_mod a x)

module _ (frames : ℕ) (small : IsSmall frames) (s : FrameState) (valid : IsValid frames s) where
  -- The run that a granted request gets.
  pub record Granted (q : Request) (slot first : ℕ) : Type 0 where
    pub there : slot < length s.records
    pub vacant : (get_or s.records slot no_record).active ≡ false
    pub inside : first + q.page_count ≤ frames
    pub below : (first + q.page_count) * page_size ≤ q.maximum_physical_address + 1
    pub aligned : first * page_size % q.alignment ≡ 0
    pub free : (g : ℕ) → implies (in_run first (first + q.page_count) g) (is_free s g) ≡ true

  granted :
      (q : Request) (slot first : ℕ)
      → q.maximum_physical_address < 2 ^ 64
      → q.page_count < 2 ^ 64
      → check_request frames q ≡ none
      → find_record (λ r. not r.active) 0 s.records ≡ some slot
      → find_run frames (maximum_past_frame frames q - q.page_count + 1) 0 q s.eligible s.used
        ≡ some first
      → Granted q slot first
  granted q slot first word count_word c rec run =
      let (some_pages, fits, power) = check_request-none frames q word count_word small c in
      let (below_limit, below_max) = maximum_past_frame_lem frames q word count_word small in
      let (there, passes) = find_record_sound (λ r. not r.active) s.records slot rec in
      let (early, good) = find_run_sound frames q s.eligible s.used _ 0 first run in
      let whole : mul64 first page_size ≡ first * page_size = omega arith in
      record {
        there = there;
        vacant = ground (arith, passes);
        inside = omega arith;
        below = omega arith;
        aligned =
            power_of_two_mask q.alignment (first * page_size) power (ground (arith, good, whole));
        free = λ g. ground (
          arith,
          good,
          all_frames-true (λ f. bitmap_get s.eligible f && not (bitmap_get s.used f)) q.page_count
              first g,
        );
      }

  -- A refusal leaves the state alone; success commits a granted run.
  pub data Answer (q : Request) (r : Status × Allocation × FrameState) : Type 0 where
    refusal : r.0 ≢ ok → r.2 ≡ s → Answer q r
    grant :
        (slot first : ℕ)
        → Granted q slot first
        → r ≡ (ok, (commit_run frames slot first q s).0, (commit_run frames slot first q s).1)
        → Answer q r

  check_request-ne-ok : (q : Request) → check_request frames q ≢ some ok
  unfolding check_request
  check_request-ne-ok q e = ground arith

  pub frame_allocate_contiguous-Answer :
      (given : Bool) (q : Request) (handle : Allocation)
      → q.maximum_physical_address < 2 ^ 64
      → q.page_count < 2 ^ 64
      → Answer q (frame_allocate_contiguous frames given q handle s)
  unfolding frame_allocate_contiguous
  frame_allocate_contiguous-Answer given q handle word count_word =
      if_rule (Answer q) (not given) {x = (null_argument, handle, s)}
        (λ _. refusal (ground arith) refl)
        λ _.
          if_rule (Answer q) (not s.initialized) {x = (not_initialized, cleared, s)}
            (λ _. refusal (ground arith) refl)
            λ _. elim (Option-cases (check_request frames q)) [
              | inr (st, e) ↦ rw e (refusal (λ z. check_request-ne-ok q (e ∙ ap some z)) refl)
              | inl c ↦ rw c (elim (Option-cases (find_record (λ r. not r.active) 0 s.records)) [
                | inl e ↦ rw e (refusal (ground arith) refl)
                | inr (slot, rec) ↦
                    rw rec
                      (elim (Option-cases (
                        find_run frames (maximum_past_frame frames q - q.page_count + 1) 0 q
                          s.eligible s.used)) [
                            | inl e ↦ rw e (refusal (ground arith) refl)
                            | inr (first, run) ↦ rw run (
                                grant slot first (granted q slot first word count_word c rec run)
                                  refl)
                          ])
              ])
            ]

  -- For fewer than 2^52 frames and a request of machine words, frame_allocate_contiguous keeps a
  -- valid allocator valid, whatever it answers.
  pub frame_allocate_contiguous-IsValid :
      (given : Bool) (q : Request) (handle : Allocation)
      → q.maximum_physical_address < 2 ^ 64
      → q.page_count < 2 ^ 64
      → IsValid frames (frame_allocate_contiguous frames given q handle s).2
  frame_allocate_contiguous-IsValid given q handle word count_word =
      from (frame_allocate_contiguous-Answer given q handle word count_word)
    where
      from : {r : Status × Allocation × FrameState} → Answer q r → IsValid frames r.2
      from (refusal _ same) = rw same valid
      from (grant slot first g e) =
          rw e
            (commit_run-IsValid frames small s valid slot g.there first q g.inside g.free g.vacant)

  handle_fields :
      (q : Request) (slot first : ℕ)
      → Granted q slot first
      → let h = (commit_run frames slot first q s).0 in
        (h.physical_base ≡ first * page_size) × (h.page_count ≡ q.page_count) × (h.active ≡ true)
  unfolding commit_run
  handle_fields q slot first g = (omega (arith, g.inside), refl, refl)

  -- For fewer than 2^52 frames, a valid allocator and a request of machine words, a granted
  -- request gives a live handle for a run of the asked length, aligned as asked and within the
  -- inclusive address bound. Every frame of the run was free, and the frames used afterwards are
  -- those of the run and the ones used before.
  pub frame_allocate_contiguous_grant :
      (q : Request) (old h : Allocation) (t : FrameState)
      → q.maximum_physical_address < 2 ^ 64
      → q.page_count < 2 ^ 64
      → frame_allocate_contiguous frames true q old s ≡ (ok, h, t)
      → (first : ℕ) × (h.physical_base ≡ first * page_size)
        × (h.page_count ≡ q.page_count)
        × (h.active ≡ true)
        × (h.physical_base % q.alignment ≡ 0)
        × (h.physical_base + q.page_count * page_size ≤ q.maximum_physical_address + 1)
        × ((g : ℕ)
            → (implies (in_run first (first + q.page_count) g) (is_free s g) ≡ true)
              × (bitmap_get t.used g
                  ≡ (in_run first (first + q.page_count) g || bitmap_get s.used g)))
  frame_allocate_contiguous_grant q old h t word count_word e =
      from (frame_allocate_contiguous-Answer true q old word count_word)
    where
      from :
          Answer q (frame_allocate_contiguous frames true q old s)
          → (first : ℕ) × (h.physical_base ≡ first * page_size)
            × (h.page_count ≡ q.page_count)
            × (h.active ≡ true)
            × (h.physical_base % q.alignment ≡ 0)
            × (h.physical_base + q.page_count * page_size ≤ q.maximum_physical_address + 1)
            × ((g : ℕ)
                → (implies (in_run first (first + q.page_count) g) (is_free s g) ≡ true)
                  × (bitmap_get t.used g
                      ≡ (in_run first (first + q.page_count) g || bitmap_get s.used g)))
      from (refusal no_ok _) = absurd (no_ok (ap (λ r. r.0) e))
      from (grant slot first g e') =
          let at = sym e' ∙ e in
          let (base, pages, live) = handle_fields q slot first g in
          rw (← ap (λ r. r.1) at, ← ap (λ r. r.2) at)
            (
              first,
              base,
              pages,
              live,
              rw base g.aligned,
              rw base (omega (arith, g.below)),
              λ f. (
                g.free f,
                ground (
                  arith,
                  (used-commit frames small s valid slot g.there first q g.inside g.free
                        g.vacant).reads
                      f,
                ),
              ),
            )

  -- For fewer than 2^52 frames, a valid and initialised allocator with a vacant record grants
  -- every request that passes the checks whenever some aligned run of free frames ends below the
  -- bound of the request.
  pub frame_allocate_contiguous_complete :
      (q : Request) (old : Allocation) (slot first : ℕ)
      → s.initialized ≡ true
      → check_request frames q ≡ none
      → find_record (λ r. not r.active) 0 s.records ≡ some slot
      → first + q.page_count ≤ maximum_past_frame frames q
      → is_run frames q s.eligible s.used first ≡ true
      → (frame_allocate_contiguous frames true q old s).0 ≡ ok
  unfolding frame_allocate_contiguous
  frame_allocate_contiguous_complete q old slot first on c rec fits run =
      elim (Option-cases
        (find_run frames (maximum_past_frame frames q - q.page_count + 1) 0 q s.eligible s.used)) [
          | inl none_found ↦ absurd (
              false≢true (
                sym (
                  find_run_complete frames q s.eligible s.used _ 0 first none_found (omega arith)
                    (omega arith))
                ∙ run))
          | inr (found, e) ↦ rw (on, c, rec, e) refl
        ]
