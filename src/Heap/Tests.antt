-- ===== src/Heap/Tests.antt =====
-- Runs and instances of src/kernel/heap.c, over a memory that hands out frames in order.
use pyrenis.Base.{
  ℕ, ◌+◌, ◌*◌, ◌≡◌, ◌↔◌, refl, true, false, none, some, [], ◌∷◌, arith, if◌then◌else◌, ◌==◌,
}
use pyrenis.Pages.{Memory, unmapped}
use pyrenis.Heap.Table.{
  align_up, find_fit, split_block, insert_after, validate_table, block_index_for_offset,
  remove_block, absorb_next, merge_forwards, merge_backwards, merge_free_neighbours,
}
use pyrenis.Heap.Chain.{live}
use pyrenis.Heap.Calls.{
  ok, HeapState, heap_base, heap_size, refresh_state, used_bytes, used_blocks, last_block,
  free_trailer, commit_page, commit_pages, pages_between, take_growth, growth_for, settle_growth,
  grow_for, place, grow_and_place, heap_allocate, give_back, heap_free,
}
use pyrenis.Heap.Growth.{IsValid, validate_table-IsValid}
use pyrenis.Heap.Grant.{Outcome}
use pyrenis.Heap.Allocate.{heap_allocate_lem}
use pyrenis.Heap.Complete.{heap_allocate_complete}
use pyrenis.Heap.Release.{heap_free-IsValid, heap_free-live, heap_free-allocate}

-- The state of the memory is the number of frames that were handed out.
abbrev in_order : Memory ℕ
in_order = record {
  allocate_frame = λ w. (some (w * 4096), w + 1);
  release_frame = λ frame w. (true, w);
  map_page = λ address frame w. (true, w);
  unmap_page = λ address w. (true, w);
  translate = λ address w. unmapped;
}

abbrev empty_heap : HeapState
empty_heap = record {
  blocks = [];
  base_address = heap_base;
  size = heap_size;
  committed_bytes = 0;
  allocated_bytes = 0;
  block_count = 0;
  live_allocations = 0;
  mapped_pages = 0;
  active = true;
}

abbrev one_block : HeapState
one_block = record {
  blocks =
      record { offset = 0; size = 112; used = true }
      ∷ record { offset = 112; size = 3984; used = false }
      ∷ [];
  base_address = heap_base;
  size = heap_size;
  committed_bytes = 4096;
  allocated_bytes = 112;
  block_count = 2;
  live_allocations = 1;
  mapped_pages = 1;
  active = true;
}

empty-IsValid : IsValid empty_heap
empty-IsValid = record {
  tiles = refl;
  pairs = tt;
  room = omega arith;
  window = omega arith;
  pages = refl;
}

one-IsValid : IsValid one_block
one-IsValid = record {
  tiles = (refl, omega arith, refl, (refl, omega arith, refl, refl));
  pairs = (refl, (refl, tt));
  room = omega arith;
  window = omega arith;
  pages = refl;
}

allocates : heap_allocate in_order true 100 empty_heap 0 ≡ (ok, some heap_base, one_block, 1)
unfolding heap_allocate find_fit grow_and_place grow_for free_trailer last_block growth_for
    pages_between commit_pages commit_page settle_growth take_growth place split_block insert_after
    align_up refresh_state used_bytes used_blocks
allocates = refl

frees :
    (heap_free (some heap_base) one_block).1.blocks
    ≡ record { offset = 0; size = 4096; used = false } ∷ []
unfolding heap_free block_index_for_offset give_back merge_free_neighbours merge_forwards
    merge_backwards absorb_next remove_block refresh_state
frees = refl

validate_table-IsValid_example : (validate_table one_block.blocks 4096 ≡ true) ↔ IsValid one_block
validate_table-IsValid_example =
    validate_table-IsValid one_block (omega arith, (omega arith, tt)) (omega arith) refl

heap_allocate_lem_example : Outcome 100 empty_heap (heap_allocate in_order true 100 empty_heap 0)
heap_allocate_lem_example = heap_allocate_lem in_order true 100 empty_heap 0 empty-IsValid

heap_free-IsValid_example : IsValid (heap_free (some heap_base) one_block).1
heap_free-IsValid_example = heap_free-IsValid (some heap_base) one_block one-IsValid

heap_free-live_example :
    (t : HeapState) × (heap_free (some (heap_base + 0)) one_block ≡ (ok, t))
    × IsValid t
    × ((o : ℕ) → live t.blocks o ≡ (if 0 == o then none else live one_block.blocks o))
unfolding live
heap_free-live_example = heap_free-live one_block 0 112 one-IsValid refl refl

heap_free-allocate_example :
    (u : HeapState) × (heap_free (some heap_base) one_block ≡ (ok, u))
    × IsValid u
    × ((o : ℕ) → live u.blocks o ≡ live empty_heap.blocks o)
heap_free-allocate_example =
    heap_free-allocate in_order 100 heap_base empty_heap one_block 0 1 empty-IsValid refl allocates

heap_allocate_complete_example : (heap_allocate in_order true 3000 one_block 1).0 ≡ ok
heap_allocate_complete_example =
    heap_allocate_complete in_order 3000 1 one_block 1 one-IsValid refl (omega arith) (omega arith)
      (omega arith) (omega arith) refl (omega arith)
