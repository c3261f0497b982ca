-- ===== src/Heap/Allocate.antt =====
-- heap_allocate of src/kernel/heap.c, on every branch.
use pyrenis.Base.{
  ℕ, ◌+◌, ◌-◌, ◌%◌, ◌≤◌, ◌<◌, ◌≡◌, ◌≢◌, refl, ap, ◌∙◌, inl, inr, Bool, false, not, Option, none,
  some, arith, ltb, ◌==◌, if◌then◌else◌, if_rule, Option-cases, length,
}
use pyrenis.Pages.{Memory}
use pyrenis.Heap.Table.{Block, heap_alignment, max_blocks, align_up, find_fit}
use pyrenis.Heap.Calls.{
  Status, ok, null_argument, not_initialized, zero_size, too_large, out_of_memory, out_of_blocks,
  HeapState, heap_size, last_block, free_trailer, take_growth, growth_for, settle_growth, grow_for,
  commit_pages, pages_between, place, grow_and_place, heap_allocate,
}
use pyrenis.Heap.Growth.{
  IsValid, Grew, align_bytes, extend-Grew, append-Grew, trailer_block, last_index,
}
use pyrenis.Heap.Grant.{Outcome, granted, refused, place-Outcome, find_fit_sound, find_fit_complete}

module _ (requested : ℕ) (s : HeapState) where
  -- The same with any count of mapped pages.
  recounted :
      (pages : ℕ) (trailing : Option ℕ) (growth : ℕ)
      → Grew requested s (take_growth growth trailing s)
      → Grew requested s (take_growth growth trailing (record s { mapped_pages = pages }))
  unfolding take_growth
  recounted pages trailing growth g = record {
    valid = record {
      tiles = g.valid.tiles;
      pairs = g.valid.pairs;
      room = g.valid.room;
      window = g.valid.window;
      pages = g.valid.pages;
    };
    index = g.index;
    at_end = g.at_end;
    free = g.free;
    large = g.large;
    same = g.same;
    still = g.still;
  }

abbrev full_for : HeapState → Option ℕ → Bool
full_for s trailing = elim trailing [ some bytes ↦ false | none ↦ length s.blocks == max_blocks ]

module _ {W : Type 0} (requested : ℕ) (positive : 0 < requested)
    (whole : requested % heap_alignment ≡ 0) (s : HeapState) where
  -- A growth that went well is followed by a placement at the end of the table.
  grown-Outcome :
      (t : HeapState) (w : W)
      → Grew requested s t
      → Outcome requested s (place requested (length t.blocks - 1) t w)
  grown-Outcome t w g =
      let at : length t.blocks - 1 ≡ g.index = omega (arith, g.at_end) in
      rw at (
        place-Outcome requested positive whole s t w g.valid g.same g.still g.index
          (omega (arith, g.at_end)) g.free g.large)

  settled-Outcome :
      (growth : ℕ) (trailing : Option ℕ)
      → IsValid s
      → ((pages : ℕ)
          → Grew requested s (take_growth growth trailing (record s { mapped_pages = pages })))
      → (r : Status × ℕ × W)
      → Outcome requested s (grow_and_place requested (settle_growth growth trailing s r))
  unfolding settle_growth grow_and_place
  settled-Outcome growth trailing v g (ok, pages, w) =
      grown-Outcome (take_growth growth trailing (record s { mapped_pages = pages })) w (g pages)
  settled-Outcome growth trailing v g (st, pages, w) =
      refused st (record s { mapped_pages = pages }) w
        (record {
          tiles = v.tiles;
          pairs = v.pairs;
          room = v.room;
          window = v.window;
          pages = v.pages;
        })
        (λ e. ground arith) (λ o. refl)

  -- grow_for and the placement after it.
  grow-Outcome :
      (m : Memory W) (w : W)
      → IsValid s
      → requested ≤ heap_size
      → find_fit 0 s.blocks requested ≡ none
      → Outcome requested s (grow_and_place requested (grow_for m requested s w))
  unfolding grow_for grow_and_place
  grow-Outcome m w v fits nothing = go (free_trailer (last_block s.blocks)) refl
    where
      short : (z : ℕ) → free_trailer (last_block s.blocks) ≡ some z → z < requested
      short z e =
          let (b, found, free, bytes) = trailer_block s.blocks e in
          let (i, l, at) = last_index s.blocks found in
          omega (
            arith,
            bytes,
            ap (λ (c : Block). c.size) at,
            find_fit_complete 0 s.blocks requested i nothing (omega (arith, l))
                (ap (λ (c : Block). c.used) at ∙ free),
          )

      go :
          (trailing : Option ℕ)
          → free_trailer (last_block s.blocks) ≡ trailing
          → Outcome requested s (
              grow_and_place requested (
                if ltb (heap_size - s.committed_bytes) (growth_for requested trailing)
                then (out_of_memory, s, w)
                else if full_for s trailing
                then (out_of_blocks, s, w)
                else settle_growth (growth_for requested trailing) trailing s (
                    commit_pages m
                      (pages_between s.committed_bytes
                        (s.committed_bytes + growth_for requested trailing))
                      s.committed_bytes
                      s.committed_bytes
                      (s.mapped_pages, w))))
      go (some z) e =
          if_rule (λ (r : Status × HeapState × W). Outcome requested s (grow_and_place requested r))
            (ltb (heap_size - s.committed_bytes) (growth_for requested (some z)))
            {x = (out_of_memory, s, w)}
            (λ _. refused out_of_memory s w v (λ e. ground arith) (λ o. refl))
            λ room.
              settled-Outcome (growth_for requested (some z)) (some z) v
                (λ pages.
                  recounted requested s pages (some z) (growth_for requested (some z)) (
                    extend-Grew requested positive fits s v z e (short z e) (ground (arith, room))))
                _
      go none e =
          if_rule (λ (r : Status × HeapState × W). Outcome requested s (grow_and_place requested r))
            (ltb (heap_size - s.committed_bytes) (growth_for requested none))
            {x = (out_of_memory, s, w)}
            (λ _. refused out_of_memory s w v (λ e. ground arith) (λ o. refl))
            λ room.
              if_rule
                (λ (r : Status × HeapState × W). Outcome requested s (grow_and_place requested r))
                (length s.blocks == max_blocks) {x = (out_of_blocks, s, w)}
                (λ _. refused out_of_blocks s w v (λ e. ground arith) (λ o. refl))
                λ space.
                  settled-Outcome (growth_for requested none) none v
                    (λ pages. recounted requested s pages none (growth_for requested none) (
                      append-Grew requested positive fits s v e (ground (arith, space, v.room))
                        (ground (arith, room))))
                    _

-- A promise of more bytes is one of fewer.
weaken :
    {W : Type 0} {size requested : ℕ} {s : HeapState} {r : Status × Option ℕ × HeapState × W}
    → size ≤ requested
    → Outcome requested s r
    → Outcome size s r
weaken l (granted offset bytes t w v enough a c d n h) =
    granted offset bytes t w v (omega arith) a c d n h
weaken l (refused st t w v n h) = refused st t w v n h

-- For a valid heap over any frame allocator and page tables, heap_allocate does one of two things,
-- whatever it is asked. Either it answers ok and a pointer into the committed window, at a
-- multiple of 16 from its base, where no allocation was live and one of at least the asked size
-- now is, and leaves every other live allocation as it was; or it answers a status other than ok
-- and no pointer, and leaves every live allocation as it was. The heap is valid afterwards in both
-- cases.
pub heap_allocate_lem :
    {W : Type 0} (m : Memory W) (given : Bool) (size : ℕ) (s : HeapState) (w : W)
    → IsValid s
    → Outcome size s (heap_allocate m given size s w)
unfolding heap_allocate
heap_allocate_lem {W} m given size s w v =
    let P : Status × Option ℕ × HeapState × W → Type 0 = Outcome size s in
    let requested = align_up size heap_alignment in
    let no : (st : Status) → st ≢ ok → P (st, none, s, w) =
      λ st n. refused st s w v n (λ o. refl) in
    if_rule P (not given) {x = (null_argument, none, s, w)}
      (λ _. no null_argument (λ e. ground arith))
      λ _.
        if_rule P (not s.active) {x = (not_initialized, none, s, w)}
          (λ _. no not_initialized (λ e. ground arith))
          λ _.
            if_rule P (size == 0) {x = (zero_size, none, s, w)}
              (λ _. no zero_size (λ e. ground arith))
              λ some_size.
                if_rule P (ltb heap_size size) {x = (too_large, none, s, w)}
                  (λ _. no too_large (λ e. ground arith))
                  λ small.
                    if_rule P (ltb heap_size requested) {x = (too_large, none, s, w)}
                      (λ _. no too_large (λ e. ground arith))
                      λ fits.
                        let limit : size ≤ heap_size = ground (arith, small) in
                        let (enough, _, whole) = align_bytes size (omega (arith, limit)) in
                        let positive : 0 < requested = ground (arith, enough, some_size) in
                        weaken enough (elim (Option-cases (find_fit 0 s.blocks requested)) [
                          | inl nothing ↦ rw nothing (
                              grow-Outcome requested positive whole s m w v (ground (arith, fits))
                                nothing)
                          | inr (i, found) ↦
                              let (k, at, l, f, z) = find_fit_sound 0 s.blocks requested found in
                              let same : i ≡ k = omega (arith, at) in
                              rw (found, same)
                                (place-Outcome requested positive whole s s w v (λ o. refl) refl k l
                                  f z)
                        ])
