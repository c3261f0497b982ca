-- ===== src/Heap/Calls.antt =====
-- The entry points of src/kernel/heap.c and the pages under them. The frame allocator and the
-- page tables are the operations of `Memory` on a state of their own.
use pyrenis.Base.{
  ℕ, zero, suc, ◌+◌, ◌-◌, ◌/◌, ◌%◌, Bool, true, false, not, ◌&&◌, ◌||◌, Option, none, some, List,
  [], ◌∷◌, ◌++◌, ltb, leb, ◌==◌, if◌then◌else◌, length, get_or, set,
}
use pyrenis.Base.Words.{add64, sub64, inc64, dec64}
use pyrenis.Pages.{Translation, unmapped, failed, mapped, Memory, page_bytes, paging_write}
use pyrenis.Heap.Table.{
  Block, no_block, heap_alignment, max_blocks, align_up, find_fit, block_index_for_offset,
  split_block, merge_free_neighbours, validate_table,
}

abbrev pub heap_base : ℕ
heap_base = 0x4_0000_0000

abbrev pub heap_size : ℕ
heap_size = 0x100_0000

abbrev pub guard_below : ℕ
guard_below = heap_base - 4096

abbrev pub guard_above : ℕ
guard_above = heap_base + heap_size

pub data Status : Type 0 where
  ok null_argument already_initialized not_initialized interrupts_enabled : Status
  paging_inactive guard_mapped zero_size too_large out_of_memory out_of_blocks : Status
  mapping_failure bad_pointer double_free validation_failure : Status

-- The file-scope state: the table, and `struct heap_state`.
pub record HeapState : Type 0 where
  pub blocks : List Block
  pub base_address : ℕ
  pub size : ℕ
  pub committed_bytes : ℕ
  pub allocated_bytes : ℕ
  pub block_count : ℕ
  pub live_allocations : ℕ
  pub mapped_pages : ℕ
  pub active : Bool

-- The sums that refresh_state and heap_verify take over the used blocks.
unfoldable pub used_bytes : ℕ → List Block → ℕ
used_bytes sum [] = sum
used_bytes sum (b ∷ table) = used_bytes (if b.used then add64 sum b.size else sum) table

unfoldable pub used_blocks : ℕ → List Block → ℕ
used_blocks count [] = count
used_blocks count (b ∷ table) = used_blocks (if b.used then inc64 count else count) table

unfoldable pub refresh_state : HeapState → HeapState
refresh_state s = record s {
  block_count = length s.blocks;
  allocated_bytes = used_bytes 0 s.blocks;
  live_allocations = used_blocks 0 s.blocks;
}

-- The last entry of the table, and the table with it made larger.
unfoldable pub last_block : List Block → Option Block
last_block [] = none
last_block (b ∷ []) = some b
last_block (b ∷ c ∷ table) = last_block (c ∷ table)

unfoldable pub extend_last : ℕ → List Block → List Block
extend_last growth [] = []
extend_last growth (b ∷ []) = record b { size = add64 b.size growth } ∷ []
extend_last growth (b ∷ c ∷ table) = b ∷ extend_last growth (c ∷ table)

-- `trailing` of grow_for: the size of the last block if it is free.
unfoldable pub free_trailer : Option Block → Option ℕ
free_trailer none = none
free_trailer (some b) = if b.used then none else some b.size

unfoldable pub pages_between : ℕ → ℕ → ℕ
pages_between from to = (to - from + (page_bytes - 1)) / page_bytes

-- The end of grow_for, once the pages are there.
unfoldable pub take_growth : ℕ → Option ℕ → HeapState → HeapState
take_growth growth trailing s = record s {
  blocks = elim trailing [
    | some bytes ↦ extend_last growth s.blocks
    | none ↦ s.blocks ++ (record { offset = s.committed_bytes; size = growth; used = false } ∷ [])
  ];
  committed_bytes = add64 s.committed_bytes growth;
}

unfoldable pub growth_for : ℕ → Option ℕ → ℕ
growth_for size (some bytes) = align_up (sub64 size bytes) page_bytes
growth_for size none = align_up size page_bytes

module _ {W : Type 0} where
  unfoldable pub settle_growth : ℕ → Option ℕ → HeapState → Status × ℕ × W → Status × HeapState × W
  settle_growth growth trailing s (ok, pages, w) =
      (ok, take_growth growth trailing (record s { mapped_pages = pages }), w)
  settle_growth growth trailing s (st, pages, w) = (st, record s { mapped_pages = pages }, w)

  -- The end of heap_allocate, when the block at `index` is the one to take. The pointer is
  -- `none` for NULL.
  unfoldable pub place : ℕ → ℕ → HeapState → W → Status × Option ℕ × HeapState × W
  place requested index s w = elim (split_block s.blocks index requested) [
    | none ↦ (out_of_blocks, none, s, w)
    | some table ↦
        let t = refresh_state (record s { blocks = table }) in
        (ok, some (heap_base + (get_or table index no_block).offset), t, w)
  ]

  unfoldable pub grow_and_place : ℕ → Status × HeapState × W → Status × Option ℕ × HeapState × W
  grow_and_place requested (ok, s, w) = place requested (length s.blocks - 1) s w
  grow_and_place requested (st, s, w) = (st, none, s, w)

module _ {W : Type 0} (m : Memory W) where
  -- One page of release_pages; the count goes down with each page that is given back.
  unfoldable pub release_page : ℕ → ℕ × W → ℕ × W
  release_page address (pages, w) = elim (m.translate address w) [
    | unmapped ↦ (pages, w)
    | failed ↦ (pages, w)
    | mapped physical permissions level ↦
        let (done, w') = m.unmap_page address w in
        if done then (dec64 pages, (m.release_frame physical w').1) else (pages, w')
  ]

  unfoldable pub release_pages : ℕ → ℕ → ℕ × W → ℕ × W
  release_pages zero offset p = p
  release_pages (suc rounds) offset p =
      release_pages rounds (offset + page_bytes) (release_page (heap_base + offset) p)

  -- One page of commit_pages: a refusal, or the state with the page mapped.
  unfoldable pub commit_page : ℕ → ℕ × W → Status × ℕ × W
  commit_page offset (pages, w) =
      let (frame, w1) = m.allocate_frame w in
      elim frame [
        | none ↦ (out_of_memory, pages, w1)
        | some f ↦
            let (done, w2) = m.map_page (heap_base + offset) f w1 in
            if done
            then (ok, inc64 pages, w2)
            else (mapping_failure, pages, (m.release_frame f w2).1)
      ]

  unfoldable pub commit_pages : ℕ → ℕ → ℕ → ℕ × W → Status × ℕ × W
  commit_pages zero from offset (pages, w) = (ok, pages, w)
  commit_pages (suc rounds) from offset (pages, w) =
      let (st, pages1, w1) = commit_page offset (pages, w) in
      elim st [
        | ok ↦ commit_pages rounds from (offset + page_bytes) (pages1, w1)
        | other ↦
            let (pages2, w2) = release_pages (pages_between from offset) from (pages1, w1) in
            (other, pages2, w2)
      ]

  -- The index that grow_for reports is that of the last block.
  unfoldable pub grow_for : ℕ → HeapState → W → Status × HeapState × W
  grow_for size s w =
      let trailing = free_trailer (last_block s.blocks) in
      let growth = growth_for size trailing in
      let full : Bool = elim trailing [
        | some bytes ↦ false
        | none ↦ length s.blocks == max_blocks
      ] in
      if ltb (heap_size - s.committed_bytes) growth
      then (out_of_memory, s, w)
      else if full
      then (out_of_blocks, s, w)
      else settle_growth growth trailing s (
          commit_pages (pages_between s.committed_bytes (s.committed_bytes + growth))
            s.committed_bytes s.committed_bytes (s.mapped_pages, w))

  abbrev pub guards_absent : W → Bool
  guards_absent w =
      let absent : Translation → Bool = λ t. elim t [ unmapped ↦ true | _ ↦ false ] in
      absent (m.translate guard_below w) && absent (m.translate guard_above w)

  unfoldable pub heap_initialize : Bool → Bool → HeapState → W → Status × HeapState
  heap_initialize paging interrupts_on s w =
      if s.active
      then (already_initialized, s)
      else if not paging
      then (paging_inactive, s)
      else if interrupts_on
      then (interrupts_enabled, s)
      else if not (guards_absent w)
      then (guard_mapped, s)
      else (
        ok,
        refresh_state (record s {
          blocks = [];
          base_address = heap_base;
          size = heap_size;
          committed_bytes = 0;
          mapped_pages = 0;
          active = true;
        }),
      )

  unfoldable pub heap_allocate : Bool → ℕ → HeapState → W → Status × Option ℕ × HeapState × W
  heap_allocate given size s w =
      let requested = align_up size heap_alignment in
      if not given
      then (null_argument, none, s, w)
      else if not s.active
      then (not_initialized, none, s, w)
      else if size == 0
      then (zero_size, none, s, w)
      else if ltb heap_size size
      then (too_large, none, s, w)
      else if ltb heap_size requested
      then (too_large, none, s, w)
      else elim (find_fit 0 s.blocks requested) [
        | some index ↦ place requested index s w
        | none ↦ grow_and_place requested (grow_for requested s w)
      ]

  -- Every committed page is a writable four-kilobyte mapping.
  unfoldable pub pages_backed : ℕ → ℕ → W → Bool
  pages_backed zero offset w = true
  pages_backed (suc rounds) offset w = elim (m.translate (heap_base + offset) w) [
    | unmapped ↦ false
    | failed ↦ false
    | mapped physical permissions level ↦ elim (permissions == paging_write && level == 1) [
      | true ↦ pages_backed rounds (offset + page_bytes) w
      | false ↦ false
    ]
  ]

  unfoldable pub heap_verify : HeapState → W → Status
  heap_verify s w =
      if not s.active
      then not_initialized
      else if ltb heap_size s.committed_bytes
          || (not (s.committed_bytes % page_bytes == 0)
              || not (s.mapped_pages == s.committed_bytes / page_bytes))
      then validation_failure
      else if not (validate_table s.blocks s.committed_bytes)
      then validation_failure
      else if not (guards_absent w)
      then guard_mapped
      else if not (pages_backed (pages_between 0 s.committed_bytes) 0 w)
      then validation_failure
      else if not (used_bytes 0 s.blocks == s.allocated_bytes)
          || (not (used_blocks 0 s.blocks == s.live_allocations)
              || not (length s.blocks == s.block_count))
      then validation_failure
      else ok

-- The state after the block at `index` has been freed.
unfoldable pub give_back : ℕ → HeapState → HeapState
give_back index s =
    let b = get_or s.blocks index no_block in
    refresh_state (record s {
      blocks = merge_free_neighbours (set s.blocks index (record b { used = false })) index;
    })

-- `none` is the null pointer.
unfoldable pub heap_free : Option ℕ → HeapState → Status × HeapState
heap_free none s = if not s.active then (not_initialized, s) else (null_argument, s)
heap_free (some address) s =
    if not s.active
    then (not_initialized, s)
    else if ltb address heap_base || leb (add64 heap_base s.committed_bytes) address
    then (bad_pointer, s)
    else elim (block_index_for_offset 0 s.blocks (address - heap_base)) [
      | none ↦ (bad_pointer, s)
      | some index ↦
          if not (get_or s.blocks index no_block).used
          then (double_free, s)
          else (ok, give_back index s)
    ]
