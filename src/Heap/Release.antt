-- ===== src/Heap/Release.antt =====
-- heap_free of src/kernel/heap.c, on every branch, and heap_allocate followed by heap_free.
use pyrenis.Base.{
  ℕ, suc, ◌+◌, ◌-◌, ◌<◌, ◌≡◌, refl, ap, ◌∙◌, inl, inr, true, false, not, ◌||◌, Option, none, some,
  List, [], ◌∷◌, arith, ltb, leb, ◌==◌, if◌then◌else◌, if_rule, Bool-cases, Option-cases, length,
  get_or, length-set, get_or-set_self,
}
use pyrenis.Base.Words.{add64}
use pyrenis.Pages.{Memory}
use pyrenis.Heap.Table.{Block, no_block, block_index_for_offset}
use pyrenis.Heap.Chain.{Tiles, live, live_below}
use pyrenis.Heap.Split.{offset_ge}
use pyrenis.Heap.Merge.{mark_free, Tiles-mark_free, live-mark_free}
use pyrenis.Heap.Coalesce.{merge_Tiles, merge_NoPairs}
use pyrenis.Heap.Calls.{
  Status, ok, bad_pointer, double_free, not_initialized, HeapState, heap_base, refresh_state,
  give_back, heap_free,
}
use pyrenis.Heap.Growth.{IsValid}
use pyrenis.Heap.Calls.{heap_allocate}
use pyrenis.Heap.Grant.{Outcome, granted, refused}
use pyrenis.Heap.Allocate.{heap_allocate_lem}

index_sound :
    (p : ℕ) (table : List Block) (o : ℕ) {i : ℕ}
    → block_index_for_offset p table o ≡ some i
    → (k : ℕ) × (i ≡ p + k) × (k < length table) × ((get_or table k no_block).offset ≡ o)
unfolding block_index_for_offset
index_sound p [] o e = absurd (ground arith)
index_sound p (b ∷ table) o {i} e = elim (Bool-cases (b.offset == o)) [
  | inl now ↦ (0, ground (arith, now, e), omega arith, ground (arith, now))
  | inr later ↦
      let (k, at, l, f) = index_sound (suc p) table o {i = i} (ground (arith, later, e)) in
      (suc k, omega (arith, at), omega (arith, l), f)
]

-- A live allocation at the first offset is that of the first block.
used_first :
    (first last : ℕ) (b : Block) (table : List Block) (o n : ℕ)
    → (b.offset == o) ≡ true
    → Tiles first (b ∷ table) last
    → live (b ∷ table) o ≡ some n
    → b.used ≡ true
unfolding live
used_first first last b table o n now v e = elim (Bool-cases b.used) [
  | inl u ↦ u
  | inr un ↦
      absurd (ground (arith, un, e, v.0, v.1, now, live_below (first + b.size) last table o v.3))
]

-- A live allocation is found at its block, which is used.
index_live :
    (first last p : ℕ) (table : List Block) (o n : ℕ)
    → Tiles first table last
    → live table o ≡ some n
    → (k : ℕ) × (block_index_for_offset p table o ≡ some (p + k))
      × (k < length table)
      × ((get_or table k no_block).used ≡ true)
      × ((get_or table k no_block).offset ≡ o)
unfolding live block_index_for_offset
index_live first last p [] o n v e = absurd (ground arith)
index_live first last p (b ∷ table) o n v e = elim (Bool-cases (b.offset == o)) [
  | inl now ↦ (
    0,
    ground (arith, now),
    omega arith,
    used_first first last b table o n now v e,
    ground (arith, now),
  )
  | inr later ↦
      let (k, at, l, u, f) =
        index_live (first + b.size) last (suc p) table o n v.3 (ground (arith, later, e)) in
      (suc k, ground (arith, later, at), omega (arith, l), u, f)
]

give_back_lem :
    (s : HeapState) (i : ℕ)
    → IsValid s
    → i < length s.blocks
    → (get_or s.blocks i no_block).used ≡ true
    → IsValid (give_back i s)
      × ((o : ℕ)
          → live (give_back i s).blocks o
            ≡ (if (get_or s.blocks i no_block).offset == o then none else live s.blocks o))
unfolding give_back refresh_state
give_back_lem s i valid l u =
    let table = mark_free s.blocks i in
    let len : length table ≡ length s.blocks = length-set s.blocks i _ in
    let freed : (get_or table i no_block).used ≡ false =
      ap (λ (b : Block). b.used)
        (get_or-set_self s.blocks i (record (get_or s.blocks i no_block) { used = false }) no_block
          l) in
    let (v, c, e) =
      merge_Tiles s.committed_bytes table i (omega (arith, valid.window)) (omega (arith, len, l))
        freed (Tiles-mark_free 0 s.committed_bytes s.blocks i valid.tiles) in
    (
      record {
        tiles = v;
        pairs = merge_NoPairs false s.blocks i l refl u valid.pairs;
        room = omega (arith, c, len, valid.room);
        window = valid.window;
        pages = valid.pages;
      },
      λ o. e o ∙ live-mark_free 0 s.committed_bytes s.blocks i o l valid.tiles,
    )

abbrev LeavesValid : Status × HeapState → Type 0
LeavesValid r = IsValid r.1

-- heap_free keeps a valid heap valid, whatever pointer it is given: the blocks tile the committed
-- bytes, no two free blocks are side by side, and the table fits its array.
pub heap_free-IsValid :
    (pointer : Option ℕ) (s : HeapState) → IsValid s → IsValid (heap_free pointer s).1
unfolding heap_free
heap_free-IsValid none s v = if_rule LeavesValid (not s.active) (λ _. v) λ _. v
heap_free-IsValid (some address) s v =
    if_rule LeavesValid (not s.active) {x = (not_initialized, s)} (λ _. v)
      λ _.
        if_rule LeavesValid
          (ltb address heap_base || leb (add64 heap_base s.committed_bytes) address)
          {x = (bad_pointer, s)} (λ _. v)
          λ _. elim (Option-cases (block_index_for_offset 0 s.blocks (address - heap_base))) [
            | inl nothing ↦ rw nothing v
            | inr (i, found) ↦
                let (k, at, l, _) = index_sound 0 s.blocks (address - heap_base) found in
                rw found (
                  if_rule LeavesValid (not (get_or s.blocks i no_block).used) {x = (double_free, s)}
                    (λ _. v)
                    λ used. (give_back_lem s i v (omega (arith, at, l)) (ground (arith, used))).0)
          ]

-- For a valid and active heap, heap_free of the address of a live allocation answers ok, leaves
-- the heap valid, and removes that allocation and no other.
pub heap_free-live :
    (s : HeapState) (offset bytes : ℕ)
    → IsValid s
    → s.active ≡ true
    → live s.blocks offset ≡ some bytes
    → (t : HeapState) × (heap_free (some (heap_base + offset)) s ≡ (ok, t))
      × IsValid t
      × ((o : ℕ) → live t.blocks o ≡ (if offset == o then none else live s.blocks o))
unfolding heap_free
heap_free-live s offset bytes v running e =
    let (k, at, l, u, f) = index_live 0 s.committed_bytes 0 s.blocks offset bytes v.tiles e in
    let (_, high, some_size, _) = offset_ge 0 s.committed_bytes s.blocks k l v.tiles in
    let back : heap_base + offset - heap_base ≡ offset = omega arith in
    let (w, h) = give_back_lem s k v l u in
    (
      give_back k s,
      ground (arith, running, back, at, u, f, high, some_size, v.window),
      w,
      rw f at h,
    )

-- For a valid and active heap over any frame allocator and page tables, a pointer that
-- heap_allocate answers with ok is accepted by heap_free at once: it answers ok, the heap is
-- valid, and the live allocations are those from before the two calls.
pub heap_free-allocate :
    {W : Type 0} (m : Memory W) (size p : ℕ) (s t : HeapState) (w w' : W)
    → IsValid s
    → s.active ≡ true
    → heap_allocate m true size s w ≡ (ok, some p, t, w')
    → (u : HeapState) × (heap_free (some p) t ≡ (ok, u))
      × IsValid u
      × ((o : ℕ) → live u.blocks o ≡ live s.blocks o)
heap_free-allocate {W} m size p s t w w' v running e = go _ (heap_allocate_lem m true size s w v) e
  where
    go :
        (r : Status × Option ℕ × HeapState × W)
        → Outcome size s r
        → r ≡ (ok, some p, t, w')
        → (u : HeapState) × (heap_free (some p) t ≡ (ok, u))
          × IsValid u
          × ((o : ℕ) → live u.blocks o ≡ live s.blocks o)
    go r (granted offset bytes t1 w1 v1 enough a c d n h) e =
        let place : heap_base + offset ≡ p = ground (arith, e) in
        let state : t1 ≡ t = ap (λ (r : Status × Option ℕ × HeapState × W). r.2) e in
        let (u, freed, vu, l) =
          heap_free-live t1 offset bytes v1 (d ∙ running) (ground (arith, h offset)) in
        (u, rw (← place, ← state) freed, vu, λ o. ground (arith, l o, h o, n))
    go r (refused st t1 w1 v1 n h) e =
        absurd (n (ap (λ (r : Status × Option ℕ × HeapState × W). r.0) e))
