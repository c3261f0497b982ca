-- ===== src/Frames/Contiguous/Return.antt =====
-- A contiguous run is given back whole: the handle that frame_allocate_contiguous fills in is
-- accepted by frame_release_contiguous, and every bit and count is as before.
use pyrenis.Base.{
  ℕ, ◌+◌, ◌/◌, ◌^◌, ◌≤◌, ◌<◌, ◌≡◌, ◌≢◌, refl, sym, ap, ◌∙◌, inl, inr, Bool, true, false, not, ◌&&◌,
  ◌||◌, some, arith, ◌==◌, if◌then◌else◌, if_rule, Option-cases, length, get_or, get_or-set_self,
  length-set,
}
use pyrenis.Base.Words.{mul64, add64, sub64}
use pyrenis.Base.Count.{count_below-le}
use pyrenis.Frames.Bitmap.{bitmap_get}
use pyrenis.Frames.Records.{no_record}
use pyrenis.Frames.State.{
  Status, ok, null_argument, not_initialized, double_free, bad_contiguous_allocation, FrameState,
  ContiguousRecord, page_size,
}
use pyrenis.Frames.Invariant.{is_free, is_taken, IsValid, IsSmall}
use pyrenis.Frames.Contiguous.{
  Request, Allocation, find_record, commit_run, return_run, frame_allocate_contiguous,
  frame_release_contiguous, all_frames,
}
use pyrenis.Frames.Contiguous.Runs.{all_frames-of, AllBelow, find_record_sound, find_record-set}
use pyrenis.Frames.Contiguous.Commit.{
  used-commit, commit_run-IsValid, counts-commit, return_run-IsValid, run_taken, used-return,
}
use pyrenis.Frames.Contiguous.Calls.{
  Granted, Answer, refusal, grant, frame_allocate_contiguous-Answer,
}

module _ (frames : ℕ) (small : IsSmall frames) (s : FrameState) (valid : IsValid frames s) where
  -- The run of a live record always passes the check of the release.
  run_accepted_in :
      (slot : ℕ)
      → slot < length s.records
      → (get_or s.records slot no_record).active ≡ true
      → let r = get_or s.records slot no_record in
        all_frames
          (λ f. bitmap_get s.eligible f && bitmap_get s.used f)
          r.page_count
          (r.physical_base / page_size)
        ≡ true
  run_accepted_in slot there live =
      let r = get_or s.records slot no_record in
      all_frames-of (is_taken s) r.page_count (r.physical_base / page_size)
        (r.physical_base / page_size + r.page_count) refl
        (run_taken frames small s valid slot there r refl live)

module _ (frames : ℕ) (small : IsSmall frames) (s : FrameState) (valid : IsValid frames s) where
  -- A refusal changes nothing; success gives back the run of a live record.
  data Returned (h : Allocation) (r : Status × Allocation × FrameState) : Type 0 where
    kept : r.0 ≢ ok → r.2 ≡ s → Returned h r
    returned :
        (slot : ℕ)
        → slot < length s.records
        → (get_or s.records slot no_record).active ≡ true
        → r ≡ (ok, record h { active = false }, return_run slot s)
        → Returned h r

  frame_release_contiguous-Returned :
      (given : Bool) (h : Allocation) → Returned h (frame_release_contiguous given h s)
  unfolding frame_release_contiguous
  frame_release_contiguous-Returned given h =
      if_rule (Returned h) (not given) {x = (null_argument, h, s)} (λ _. kept (ground arith) refl)
        λ _.
          if_rule (Returned h) (not s.initialized) {x = (not_initialized, h, s)}
            (λ _. kept (ground arith) refl)
            λ _.
              if_rule (Returned h) (not h.active) {x = (double_free, h, s)}
                (λ _. kept (ground arith) refl)
                λ _.
                  elim (Option-cases
                    (find_record (λ r. r.active && r.identifier == h.identifier) 0 s.records)) [
                      | inl e ↦ rw e (kept (ground arith) refl)
                      | inr (slot, e) ↦ rw e (found slot e)
                    ]
    where
      found :
          (slot : ℕ)
          → find_record (λ r. r.active && r.identifier == h.identifier) 0 s.records ≡ some slot
          → Returned h (
              let r = get_or s.records slot no_record in
              let first = r.physical_base / page_size in
              if not (r.physical_base == h.physical_base) || not (r.page_count == h.page_count)
              then (bad_contiguous_allocation, h, s)
              else if not (
                  all_frames
                    (λ f. bitmap_get s.eligible f && bitmap_get s.used f)
                    r.page_count
                    first)
              then (bad_contiguous_allocation, h, s)
              else (ok, record h { active = false }, return_run slot s))
      found slot e =
          let (there, hit) =
            find_record_sound (λ r. r.active && r.identifier == h.identifier) s.records slot e in
          let r = get_or s.records slot no_record in
          if_rule (Returned h)
            (not (r.physical_base == h.physical_base) || not (r.page_count == h.page_count))
            {x = (bad_contiguous_allocation, h, s)} (λ _. kept (ground arith) refl)
            λ _.
              if_rule (Returned h)
                (not (
                  all_frames (λ f. bitmap_get s.eligible f && bitmap_get s.used f) r.page_count
                    (r.physical_base / page_size)))
                {x = (bad_contiguous_allocation, h, s)} (λ _. kept (ground arith) refl)
                λ _. returned slot there (ground (arith, hit)) refl

  -- For fewer than 2^52 frames, frame_release_contiguous keeps a valid allocator valid, whatever
  -- handle it is given and whatever it answers.
  pub frame_release_contiguous-IsValid :
      (given : Bool) (h : Allocation) → IsValid frames (frame_release_contiguous given h s).2
  frame_release_contiguous-IsValid given h = from (frame_release_contiguous-Returned given h)
    where
      from : {r : Status × Allocation × FrameState} → Returned h r → IsValid frames r.2
      from (kept _ same) = rw same valid
      from (returned slot there live e) = rw e (
          return_run-IsValid frames small s valid slot there (get_or s.records slot no_record) refl
            live)

  module _ (q : Request) (slot first : ℕ) (g : Granted frames small s valid q slot first)
      (fresh : AllBelow s.next_identifier s.records) where
    -- The state after the grant, and the one after its release.
    granted_state : FrameState
    granted_state = (commit_run frames slot first q s).1

    new_record : ContiguousRecord
    new_record = record {
      physical_base = mul64 first page_size;
      page_count = q.page_count;
      identifier = s.next_identifier;
      active = true;
    }

    stored : get_or granted_state.records slot no_record ≡ new_record
    unfolding granted_state commit_run new_record
    stored = get_or-set_self s.records slot _ no_record g.there

    found_again :
        find_record (λ r. r.active && r.identifier == s.next_identifier) 0 granted_state.records
        ≡ some slot
    unfolding granted_state commit_run
    found_again =
        find_record-set s.next_identifier 0 s.records slot _ fresh g.there refl refl
        ∙ ap some (omega arith)

    granted-IsValid : IsValid frames granted_state
    unfolding granted_state
    granted-IsValid =
        commit_run-IsValid frames small s valid slot g.there first q g.inside g.free g.vacant

    still_there : slot < length granted_state.records
    unfolding granted_state commit_run new_record
    still_there = omega (arith, length-set s.records slot new_record)

    live : (get_or granted_state.records slot no_record).active ≡ true
    unfolding new_record
    live = ap (λ r. r.active) stored

    accepted :
        all_frames
          (λ f. bitmap_get granted_state.eligible f && bitmap_get granted_state.used f)
          q.page_count
          (mul64 first page_size / page_size)
        ≡ true
    unfolding new_record
    accepted =
        rw stored at
          (run_accepted_in frames small granted_state granted-IsValid slot still_there live)

    handle : Allocation
    handle = (commit_run frames slot first q s).0

    release_granted :
        s.initialized ≡ true
        → frame_release_contiguous true handle granted_state
          ≡ (ok, record handle { active = false }, return_run slot granted_state)
    unfolding frame_release_contiguous handle granted_state commit_run new_record
    release_granted on = rw (found_again, stored, accepted) (ground arith)

    run_back : mul64 first page_size / page_size ≡ first
    run_back = omega (arith, g.inside)

    bits_restored :
        (f : ℕ) → bitmap_get (return_run slot granted_state).used f ≡ bitmap_get s.used f
    unfolding granted_state new_record
    bits_restored f = ground (
      arith,
      g.free f,
      run_back,
      (used-return frames small granted_state granted-IsValid slot still_there new_record stored
            refl).reads
          f,
      (used-commit frames small s valid slot g.there first q g.inside g.free g.vacant).reads f,
    )

    taken_bound : q.page_count ≤ s.stats.free_frames
    taken_bound = omega (
      arith,
      valid.free_count,
      (counts-commit frames small s valid slot g.there first q g.inside g.free g.vacant).0,
    )

    granted_stats : granted_state.stats ≡ record (s.stats) {
      free_frames = sub64 s.stats.free_frames q.page_count;
      allocated_frames = add64 s.stats.allocated_frames q.page_count;
    }
    unfolding granted_state commit_run
    granted_stats = refl

    returned_stats : (return_run slot granted_state).stats ≡ record (granted_state.stats) {
      free_frames = add64 granted_state.stats.free_frames q.page_count;
      allocated_frames = sub64 granted_state.stats.allocated_frames q.page_count;
    }
    unfolding return_run new_record
    returned_stats = rw stored refl

    counts_restored : (return_run slot granted_state).stats ≡ s.stats
    counts_restored =
        returned_stats
        ∙ rw granted_stats (
            ground (
              arith,
              taken_bound,
              valid.free_count,
              valid.allocated_count,
              count_below-le (is_free s) frames,
              count_below-le (is_taken s) frames,
            ))

  -- For fewer than 2^52 frames, a valid and initialised allocator whose live identifiers are below
  -- the next one, and a request of machine words, a run that frame_allocate_contiguous grants is
  -- given back whole by frame_release_contiguous through the same handle: the release answers ok
  -- and clears the handle, and every bit and every count is as before the two calls.
  pub release-allocate_contiguous :
      (q : Request) (old h : Allocation) (t : FrameState)
      → q.maximum_physical_address < 2 ^ 64
      → q.page_count < 2 ^ 64
      → s.initialized ≡ true
      → AllBelow s.next_identifier s.records
      → frame_allocate_contiguous frames true q old s ≡ (ok, h, t)
      → (u : FrameState) × (frame_release_contiguous true h t
          ≡ (ok, record h { active = false }, u))
        × ((f : ℕ) → bitmap_get u.used f ≡ bitmap_get s.used f)
        × (u.eligible ≡ s.eligible)
        × (u.stats ≡ s.stats)
  unfolding commit_run handle granted_state return_run
  release-allocate_contiguous q old h t word count_word on fresh e =
      from (frame_allocate_contiguous-Answer frames small s valid true q old word count_word)
    where
      from :
          Answer frames small s valid q (frame_allocate_contiguous frames true q old s)
          → (u : FrameState) × (frame_release_contiguous true h t
              ≡ (ok, record h { active = false }, u))
            × ((f : ℕ) → bitmap_get u.used f ≡ bitmap_get s.used f)
            × (u.eligible ≡ s.eligible)
            × (u.stats ≡ s.stats)
      from (refusal no_ok _) = absurd (no_ok (ap (λ r. r.0) e))
      from (grant slot first g e') =
          let at = sym e' ∙ e in
          rw (← ap (λ r. r.1) at, ← ap (λ r. r.2) at)
            (
              return_run slot (granted_state q slot first g fresh),
              release_granted q slot first g fresh on,
              bits_restored q slot first g fresh,
              refl,
              counts_restored q slot first g fresh,
            )
