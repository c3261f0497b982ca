-- ===== src/Frames/Contiguous/Commit.antt =====
-- Taking and giving back a run of frames keeps the allocator valid.
use pyrenis.Base.{
  ℕ, ◌+◌, ◌/◌, ◌%◌, ◌≤◌, ◌<◌, ◌≡◌, ap, Bool, true, false, ◌&&◌, arith, ltb, leb, if◌then◌else◌,
  length, get_or,
}
use pyrenis.Base.Words.{mul64}
use pyrenis.Base.Count.{count_below, count_below-le, count_below-run}
use pyrenis.Frames.Records.{
  no_record, covers_frame, owners, owners_iff, owners-set, owners_of, AllFit-set, AllFit-get,
}
use pyrenis.Frames.State.{FrameState, ContiguousRecord, page_size}
use pyrenis.Frames.Invariant.{is_free, is_taken, implies, IsValid, IsSmall}
use pyrenis.Frames.Contiguous.{Request, commit_run, return_run}
use pyrenis.Frames.Contiguous.Runs.{RunSet, set_run-RunSet}

abbrev pub in_run : ℕ → ℕ → ℕ → Bool
in_run first past g = leb first g && ltb g past

module _ (frames : ℕ) (small : IsSmall frames) (s : FrameState) (valid : IsValid frames s)
    (slot : ℕ) (there : slot < length s.records) where
  module _ (first : ℕ) (q : Request) (inside : first + q.page_count ≤ frames)
      (free : (g : ℕ) → implies (in_run first (first + q.page_count) g) (is_free s g) ≡ true)
      (vacant : (get_or s.records slot no_record).active ≡ false) where
    pub used-commit :
        RunSet frames first
          (first + q.page_count)
          true
          s.used
          (commit_run frames slot first q s).1.used
    unfolding commit_run
    used-commit =
        set_run-RunSet frames q.page_count first (first + q.page_count) true s.used (omega arith)
          inside valid.used_bits

    -- The new record covers exactly the run, which nobody owned.
    owners-commit :
        (g : ℕ)
        → owners (commit_run frames slot first q s).1.records g
          ≡ owners s.records g + (if in_run first (first + q.page_count) g then 1 else 0)
    unfolding commit_run covers_frame
    owners-commit g = ground (
      arith,
      owners-set s.records slot
          (record {
            physical_base = mul64 first page_size;
            page_count = q.page_count;
            identifier = s.next_identifier;
            active = true;
          })
          g there,
      vacant,
    )

    unowned : (g : ℕ) → in_run first (first + q.page_count) g ≡ true → owners s.records g ≡ 0
    unowned g h = ground (arith, free g, valid.owned g, owners_iff s.records g)

    pub counts-commit :
        (count_below frames (is_free s)
          ≡ count_below frames (is_free (commit_run frames slot first q s).1) + q.page_count)
        × (count_below frames (is_taken (commit_run frames slot first q s).1)
            ≡ count_below frames (is_taken s) + q.page_count)
    unfolding commit_run
    counts-commit =
        let t = (commit_run frames slot first q s).1 in
        let past = first + q.page_count in
        (
          omega (
            arith,
            count_below-run (is_free t) (is_free s) first past frames
                (λ g. ground (arith, free g, used-commit.reads g))
                (λ g. ground (arith, free g, used-commit.reads g)),
          ),
          omega (
            arith,
            count_below-run (is_taken s) (is_taken t) first past frames
                (λ g. ground (arith, free g, used-commit.reads g))
                (λ g. ground (arith, free g, used-commit.reads g)),
          ),
        )

    -- Handing out a free run through a vacant record keeps the allocator valid.
    pub commit_run-IsValid : IsValid frames (commit_run frames slot first q s).1
    unfolding commit_run
    commit_run-IsValid =
        let (fewer, more) = counts-commit in
        record {
          eligible_bits = valid.eligible_bits;
          used_bits = used-commit.bits;
          free_count = omega (arith, fewer, valid.free_count, count_below-le (is_free s) frames);
          allocated_count = omega (
            arith,
            more,
            valid.allocated_count,
            count_below-le (is_taken (commit_run frames slot first q s).1) frames,
          );
          search_start = ground arith;
          owned = λ g. ground (
            arith,
            valid.owned g,
            free g,
            used-commit.reads g,
            owners-commit g,
            owners_iff (commit_run frames slot first q s).1.records g,
            owners_iff s.records g,
          );
          table = record {
            fits = AllFit-set frames s.records slot _ (ground arith) valid.table.fits;
            single = λ g. ground (arith, owners-commit g, unowned g, valid.table.single g);
          };
        }

  module _ (r : ContiguousRecord) (stored : get_or s.records slot no_record ≡ r)
      (live : r.active ≡ true) where
    pub inside_of :
        (r.physical_base % page_size ≡ 0) × (r.physical_base / page_size + r.page_count ≤ frames)
    inside_of = ground (arith, AllFit-get frames s.records slot valid.table.fits)

    covered :
        (g : ℕ)
        → covers_frame r g
          ≡ in_run (r.physical_base / page_size) (r.physical_base / page_size + r.page_count) g
    unfolding covers_frame
    covered g = ground arith

    -- Every frame of a live record is taken, so the check of the release cannot fail.
    pub run_taken :
        (g : ℕ)
        → implies
            (in_run (r.physical_base / page_size) (r.physical_base / page_size + r.page_count) g)
            (is_taken s g)
          ≡ true
    run_taken g = ground (
      arith,
      valid.owned g,
      owners_iff s.records g,
      owners_of s.records slot g there,
      stored,
      covered g,
    )

    pub used-return :
        RunSet frames
          (r.physical_base / page_size)
          (r.physical_base / page_size + r.page_count)
          false
          s.used
          (return_run slot s).used
    unfolding return_run
    used-return = rw stored (
        set_run-RunSet frames r.page_count (r.physical_base / page_size)
          (r.physical_base / page_size + r.page_count) false s.used (omega arith) inside_of.1
          valid.used_bits)

    -- The record gives its share of the owners up.
    owners-return :
        (g : ℕ)
        → owners (return_run slot s).records g
            + (if in_run
                  (r.physical_base / page_size)
                  (r.physical_base / page_size + r.page_count)
                  g
                then 1
                else 0)
          ≡ owners s.records g
    unfolding return_run covers_frame
    owners-return g =
        ground (
          arith,
          owners-set s.records slot (record r { active = false }) g there,
          stored,
          covered g,
        )

    pub counts-return :
        (count_below frames (is_free (return_run slot s))
          ≡ count_below frames (is_free s) + r.page_count)
        × (count_below frames (is_taken s)
            ≡ count_below frames (is_taken (return_run slot s)) + r.page_count)
    unfolding return_run
    counts-return =
        let t = return_run slot s in
        let first = r.physical_base / page_size in
        (
          omega (
            arith,
            inside_of,
            count_below-run (is_free s) (is_free t) first (first + r.page_count) frames
                (λ g. ground (arith, run_taken g, used-return.reads g))
                (λ g. ground (arith, run_taken g, used-return.reads g)),
          ),
          omega (
            arith,
            inside_of,
            count_below-run (is_taken t) (is_taken s) first (first + r.page_count) frames
                (λ g. ground (arith, run_taken g, used-return.reads g))
                (λ g. ground (arith, run_taken g, used-return.reads g)),
          ),
        )

    -- Giving back the run of a live record keeps the allocator valid.
    pub return_run-IsValid : IsValid frames (return_run slot s)
    unfolding return_run
    return_run-IsValid =
        let (more, fewer) = counts-return in
        record {
          eligible_bits = valid.eligible_bits;
          used_bits = used-return.bits;
          free_count = omega (
            arith,
            ap (λ x. x.page_count) stored,
            more,
            valid.free_count,
            count_below-le (is_free (return_run slot s)) frames,
          );
          allocated_count = omega (
            arith,
            ap (λ x. x.page_count) stored,
            fewer,
            valid.allocated_count,
            count_below-le (is_taken s) frames,
          );
          search_start = ground (arith, valid.search_start);
          owned = λ g. ground (
            arith,
            valid.owned g,
            valid.table.single g,
            used-return.reads g,
            owners-return g,
            owners_iff (return_run slot s).records g,
            owners_iff s.records g,
          );
          table = record {
            fits = AllFit-set frames s.records slot _ (ground arith) valid.table.fits;
            single = λ g. ground (arith, owners-return g, valid.table.single g);
          };
        }
