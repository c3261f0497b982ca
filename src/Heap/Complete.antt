-- ===== src/Heap/Complete.antt =====
-- When heap_allocate of src/kernel/heap.c must grant: a free block is there already.
use pyrenis.Base.{ℕ, ◌≤◌, ◌<◌, ◌≡◌, inl, inr, true, false, arith, Option-cases, length, get_or}
use pyrenis.Pages.{Memory}
use pyrenis.Heap.Table.{no_block, heap_alignment, max_blocks, align_up, find_fit, split_block}
use pyrenis.Heap.Calls.{ok, HeapState, heap_size, place, heap_allocate}
use pyrenis.Heap.Split.{offset_ge}
use pyrenis.Heap.Growth.{IsValid, align_bytes}
use pyrenis.Heap.Grant.{find_fit_complete}

-- With an entry to spare, a placement goes through.
place_ok :
    {W : Type 0} (requested i : ℕ) (s : HeapState) (w : W)
    → length s.blocks < max_blocks
    → (place requested i s w).0 ≡ ok
unfolding place split_block
place_ok requested i s w room = ground arith

-- For a valid and active heap over any frame allocator and page tables, with an entry of the table
-- to spare: a request for at least one byte, at most the window, and at most the size of some free
-- block is answered with ok.
pub heap_allocate_complete :
    {W : Type 0} (m : Memory W) (size i : ℕ) (s : HeapState) (w : W)
    → IsValid s
    → s.active ≡ true
    → 0 < size
    → size ≤ heap_size
    → length s.blocks < max_blocks
    → i < length s.blocks
    → (get_or s.blocks i no_block).used ≡ false
    → size ≤ (get_or s.blocks i no_block).size
    → (heap_allocate m true size s w).0 ≡ ok
unfolding heap_allocate
heap_allocate_complete m size i s w v running positive small room inside free large =
    let (enough, close, whole) = align_bytes size (omega (arith, small)) in
    let (_, high, _, unit) = offset_ge 0 s.committed_bytes s.blocks i inside v.tiles in
    let fits : align_up size heap_alignment ≤ (get_or s.blocks i no_block).size =
      omega (arith, enough, close, whole, unit, large) in
    elim (Option-cases (find_fit 0 s.blocks (align_up size heap_alignment))) [
      | inl nothing ↦ absurd (
          omega (
            arith,
            fits,
            find_fit_complete 0 s.blocks (align_up size heap_alignment) i nothing inside free,
          ))
      | inr (k, found) ↦ ground (
        arith,
        running,
        positive,
        small,
        fits,
        high,
        v.window,
        found,
        place_ok (align_up size heap_alignment) k s w room,
      )
    ]
